-- ===== src/Database/Downloads/Handlers.antt =====
-- Database.cpp, `addDownload` and `mergeData`.
use openbookfs.Prelude.{
  ℕ, ℤ, pos, ◌+ℤ◌, String, Bool, true, not, ◌&&◌, if◌then◌else◌, ltb_ℤ, [], Option, none, some,
  length, take,
}
use openbookfs.VersionVector.{VersionVector, less, greater_equal}
use openbookfs.Database.{FilePath, DownloadRow, ok, threw, caught}
use openbookfs.Database.Versions.{get_version, set_version}
use openbookfs.Database.Downloads.{
  Bytes, FileChunk, Store, find_file, set_file, remove_file, resize, truncate, write_at,
  select_download, set_recd, delete_download, delete_download_v, download_version, restart_download,
  create_download,
}

-- "SELECT temp FROM downloads …", into a text that is empty before.
unfoldable pub temp_of : Option DownloadRow → String
temp_of none = ""
temp_of (some d) = d.temp

-- `addDownload`. `mkstemp` is the name of the new staged file, if one can be made.
unfoldable pub add_download : Option String → ℤ → FilePath → ℤ → VersionVector → Store → Store
unfolding temp_of
add_download mkstemp peer path size version s = elim (select_download path peer s.db.downloads) [
  | some _ ↦
      if greater_equal (download_version path peer s.db.downloads_v []) version
      then s
      else elim (restart_download path peer size version s.db) [
        | threw _ db ↦ record s { db = db }
        | ok _ db ↦ record {
          db = db;
          disk = record s.disk {
            stage = truncate (temp_of (select_download path peer db.downloads)) size s.disk.stage;
          };
        }
      ]
  | none ↦ elim mkstemp [
    | none ↦ s
    | some temp ↦ record {
      db = caught (create_download path peer size temp version s.db);
      disk = record s.disk { stage = set_file temp (resize size []) s.disk.stage };
    }
  ]
]

-- What the system calls of `mergeData` do: whether `open`, `lseek` and `rename` succeed, and how many
-- bytes `write` takes if it does.
pub record Calls : Type 0 where
  pub opens : Bool
  pub seeks : Bool
  pub writes : Option ℕ
  pub renames : Bool

-- The end of `mergeData`, when all bytes have been received.
unfoldable pub complete_download : ℕ → Calls → FilePath → ℤ → String → Bytes → Store → Store
complete_download junk calls path peer temp content s =
    let v_mine = get_version junk path s.db [] in
    let v_theirs = download_version path peer s.db.downloads_v [] in
    if not (less v_mine v_theirs && calls.renames)
    then s
    else let db = set_version junk path v_theirs s.db in
      record {
        db = record db {
          downloads = delete_download path peer db.downloads;
          downloads_v = delete_download_v path peer db.downloads_v;
        };
        disk = record {
          stage = remove_file temp s.disk.stage;
          root = set_file path content s.disk.root;
        };
      }

-- `lseek` to the offset of the chunk, which fails where that is negative.
unfoldable pub seek : Bool → ℤ → Option ℕ
seek true (pos offset) = some offset
seek _ _ = none

-- From the write on: a short write is not noticed, and all bytes of the chunk count as received.
unfoldable pub write_chunk : ℕ → Calls → ℤ → FileChunk → DownloadRow → ℕ → ℕ → Bytes → Store → Store
unfolding complete_download
write_chunk junk calls peer chunk row offset n file s =
    let content = write_at offset (take n chunk.bytes) file in
    let recd = row.recd +ℤ pos (length chunk.bytes) in
    let written : Store = record {
      db = record s.db { downloads = set_recd chunk.path peer recd s.db.downloads };
      disk = record s.disk { stage = set_file row.temp content s.disk.stage };
    } in
    let completed = complete_download junk calls chunk.path peer row.temp content written in
    if ltb_ℤ recd row.size then written else completed

-- `mergeData`. A chunk of an older transaction is only reported, and merged all the same. Without a
-- download the name of the staged file is empty, and what `open` gets is a directory.
unfoldable pub merge_data : ℕ → Calls → ℤ → FileChunk → Store → Store
unfolding seek write_chunk
merge_data junk calls peer chunk s = elim (select_download chunk.path peer s.db.downloads) [
  | none ↦ s
  | some row ↦ elim (find_file row.temp s.disk.stage) [
    | none ↦ s
    | some file ↦ if not calls.opens then s else elim (seek calls.seeks chunk.offset) [
      | none ↦ s
      | some offset ↦ elim calls.writes [
        | none ↦ s
        | some n ↦ write_chunk junk calls peer chunk row offset n file s
      ]
    ]
  ]
]
