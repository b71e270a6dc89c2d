-- ===== src/Database/Downloads/Receiving.antt =====
-- `mergeData` of chunks that arrive in order.
use openbookfs.Prelude.{
  ℕ, ◌≤◌, ℤ, pos, ◌+ℤ◌, String, str_eq, eq_iff, ◌≡◌, refl, true, if◌then◌else◌, ltb_ℤ, List, [],
  ◌∷◌, none, some, arith, length, take, take_all,
}
use openbookfs.VersionVector.{VersionVector}
use openbookfs.Database.{FilePath, DownloadRow}
use openbookfs.Database.Downloads.{
  Bytes, FileChunk, Store, find_file, set_file, write_at, select_download, set_recd,
  delete_download, download_version,
}
use openbookfs.Database.Downloads.Handlers.{Calls, complete_download, seek, write_chunk, merge_data}

pub find_file-set_file :
    (q name : String) (c : Bytes) (fs : List (String × Bytes))
    → find_file q (set_file name c fs) ≡ (if str_eq name q then some c else find_file q fs)
unfolding find_file set_file
find_file-set_file q name c [] = refl
find_file-set_file q name c ((n, d) ∷ fs) =
    ground (arith, find_file-set_file q name c fs, eq_iff n name, eq_iff n q, eq_iff name q)

pub select_download-set_recd :
    (path : FilePath) (peer recd : ℤ) (ds : List DownloadRow) (d : DownloadRow)
    → select_download path peer ds ≡ some d
    → select_download path peer (set_recd path peer recd ds) ≡ some (record d { recd = recd })
unfolding select_download set_recd
select_download-set_recd path peer recd [] d h = absurd cc
select_download-set_recd path peer recd (x ∷ xs) d h =
    ground (arith, select_download-set_recd path peer recd xs d)

pub select_download-delete :
    (path : FilePath) (peer : ℤ) (ds : List DownloadRow)
    → select_download path peer (delete_download path peer ds) ≡ none
unfolding select_download delete_download
select_download-delete path peer [] = refl
select_download-delete path peer (d ∷ ds) = ground (arith, select_download-delete path peer ds)

-- The system calls of a run in which nothing fails.
abbrev pub working : Bytes → Calls
working bytes = record { opens = true; seeks = true; writes = some (length bytes); renames = true }

abbrev pub row_at : FilePath → ℤ → ℤ → String → ℕ → ℕ → DownloadRow
row_at path peer tx temp recd size = record {
  path = path;
  peer = peer;
  tx = tx;
  temp = temp;
  recd = pos recd;
  size = pos size;
}

-- The first `offset` bytes of `source` have been received from the peer, for the version `v`.
pub record Receiving (source : Bytes) (path : FilePath) (peer tx : ℤ) (temp : String)
    (v : VersionVector) (offset : ℕ) (s : Store) : Type 0 where
  pub row :
      select_download path peer s.db.downloads
      ≡ some (row_at path peer tx temp offset (length source))
  pub staged : Bytes
  pub found : find_file temp s.disk.stage ≡ some staged
  pub same_size : length staged ≡ length source
  pub start : take offset staged ≡ take offset source
  pub version : download_version path peer s.db.downloads_v [] ≡ v
  pub within : offset ≤ length source

abbrev pub chunk_at : FilePath → ℤ → ℕ → Bytes → FileChunk
chunk_at path tx offset bytes = record { path = path; tx = tx; offset = pos offset; bytes = bytes }

-- The store after the chunk has been written, before the end of the method.
abbrev pub written : FilePath → ℤ → String → ℕ → Bytes → Bytes → Store → Store
written path peer temp offset bytes file s = record {
  db = record s.db {
    downloads = set_recd path peer (pos offset +ℤ pos (length bytes)) s.db.downloads;
  };
  disk = record s.disk { stage = set_file temp (write_at offset bytes file) s.disk.stage };
}

pub merge_data-found :
    (junk : ℕ) (source : Bytes) (path : FilePath) (peer tx : ℤ) (sent : ℤ) (temp : String)
    (offset : ℕ) (bytes file : Bytes) (s : Store)
    → select_download path peer s.db.downloads
      ≡ some (row_at path peer tx temp offset (length source))
    → find_file temp s.disk.stage ≡ some file
    → merge_data junk (working bytes) peer (chunk_at path sent offset bytes) s ≡ (
        let after = written path peer temp offset bytes file s in
        let completed =
          complete_download junk
            (working bytes)
            path
            peer
            temp
            (write_at offset bytes file)
            after in
        if ltb_ℤ (pos offset +ℤ pos (length bytes)) (pos (length source)) then after else completed)
unfolding merge_data write_chunk seek complete_download
merge_data-found junk source path peer tx sent temp offset bytes file s row found =
    rw (row, found, take_all (length bytes) bytes (omega arith), merge_data, write_chunk) refl
