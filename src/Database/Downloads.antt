-- ===== src/Database/Downloads.antt =====
-- Database.cpp, the downloads: `addDownload` registers a file that a peer has in a newer version, and
-- `mergeData` writes its chunks into a staged file, which replaces the file when all bytes are there.
-- The outcomes of the system calls are arguments; `truncate` and `ftruncate`, whose results the code
-- does not read, succeed where the file is there and the size is not negative.
pub mod Handlers
pub mod Rows
pub mod Receiving
pub mod Completing
pub mod Starting
pub mod Adding
use openbookfs.Prelude.{
  ℕ, zero, suc, ◌+◌, ◌-◌, ℤ, pos, negsuc, ◌+ℤ◌, String, str_eq, Bool, true, false, not, ◌&&◌, ◌||◌,
  if◌then◌else◌, eqb_ℤ, ltb_ℤ, List, [], ◌∷◌, ◌++◌, Option, none, some, length, take, drop,
  replicate,
}
use openbookfs.VersionVector.{VersionVector, assign, less, greater_equal}
use openbookfs.Database.{
  FilePath, DownloadRow, DownloadVersionRow, Db, Outcome, ok, threw, Failure, constraint, M, pure,
  ◌>>=◌, ◌>>◌, throw, execute, caught, into,
}
use openbookfs.Database.Versions.{get_version, set_version}

abbrev pub Bytes : Type 0
Bytes = List ℕ

-- messages.proto, FileChunk
pub record FileChunk : Type 0 where
  pub path : FilePath
  pub tx : ℤ
  pub offset : ℤ
  pub bytes : Bytes

-- The contents of the staging directory, by name, and of the shared directory, by path.
pub record Disk : Type 0 where
  pub stage : List (String × Bytes)
  pub root : List (FilePath × Bytes)

pub record Store : Type 0 where
  pub db : Db
  pub disk : Disk

unfoldable pub find_file : String → List (String × Bytes) → Option Bytes
find_file name [] = none
find_file name ((n, c) ∷ fs) = if str_eq n name then some c else find_file name fs

unfoldable pub set_file : String → Bytes → List (String × Bytes) → List (String × Bytes)
set_file name content [] = (name, content) ∷ []
set_file name content ((n, c) ∷ fs) =
    if str_eq n name then (n, content) ∷ fs else (n, c) ∷ set_file name content fs

unfoldable pub remove_file : String → List (String × Bytes) → List (String × Bytes)
remove_file name [] = []
remove_file name ((n, c) ∷ fs) =
    let rest = remove_file name fs in if str_eq n name then rest else (n, c) ∷ rest

-- `truncate`: a file that grows is filled with zeros.
unfoldable pub resize : ℤ → Bytes → Bytes
resize (pos n) file = take n file ++ replicate (n - length file) 0
resize (negsuc _) file = file

unfoldable pub truncate : String → ℤ → List (String × Bytes) → List (String × Bytes)
unfolding find_file set_file resize
truncate name size fs = elim (find_file name fs) [
  | some file ↦ set_file name (resize size file) fs
  | none ↦ fs
]

-- `write` at an offset: a gap before it is filled with zeros.
unfoldable pub write_at : ℕ → Bytes → Bytes → Bytes
write_at offset bytes file =
    take offset file
    ++ (replicate (offset - length file) 0 ++ (bytes ++ drop (offset + length bytes) file))

-- "SELECT … FROM downloads WHERE path='%s' AND peer=%d"
unfoldable pub select_download : FilePath → ℤ → List DownloadRow → Option DownloadRow
select_download path peer [] = none
select_download path peer (d ∷ ds) =
    if str_eq d.path path && eqb_ℤ d.peer peer then some d else select_download path peer ds

-- "UPDATE downloads SET tx=tx+1, recd=0, size=%d WHERE path='%s' AND peer='%d'"
unfoldable pub restart : FilePath → ℤ → ℤ → List DownloadRow → List DownloadRow
restart path peer size [] = []
restart path peer size (d ∷ ds) =
    (if str_eq d.path path && eqb_ℤ d.peer peer
      then record d { tx = d.tx +ℤ pos 1; recd = pos 0; size = size }
      else d)
    ∷ restart path peer size ds

-- "UPDATE downloads SET recd=%d WHERE path='%s' AND peer=%d"
unfoldable pub set_recd : FilePath → ℤ → ℤ → List DownloadRow → List DownloadRow
set_recd path peer recd [] = []
set_recd path peer recd (d ∷ ds) =
    (if str_eq d.path path && eqb_ℤ d.peer peer then record d { recd = recd } else d)
    ∷ set_recd path peer recd ds

-- "DELETE FROM downloads WHERE path='%s' AND peer=%d"
unfoldable pub delete_download : FilePath → ℤ → List DownloadRow → List DownloadRow
delete_download path peer [] = []
delete_download path peer (d ∷ ds) =
    let rest = delete_download path peer ds in
    if str_eq d.path path && eqb_ℤ d.peer peer then rest else d ∷ rest

-- "DELETE FROM downloads_v WHERE path='%s' AND peer=%d"
unfoldable pub delete_download_v : FilePath → ℤ → List DownloadVersionRow → List DownloadVersionRow
delete_download_v path peer [] = []
delete_download_v path peer (d ∷ ds) =
    let rest = delete_download_v path peer ds in
    if str_eq d.path path && eqb_ℤ d.peer peer then rest else d ∷ rest

-- "SELECT v_peer,v_version FROM downloads_v WHERE path='%s' AND peer=%d", read into a vector.
unfoldable pub download_version :
    FilePath → ℤ → List DownloadVersionRow → VersionVector → VersionVector
download_version path peer [] v = v
download_version path peer (d ∷ ds) v =
    download_version path peer ds
      (if str_eq d.path path && eqb_ℤ d.peer peer then assign d.v_peer d.v_version v else v)

unfoldable pub has_download_v : FilePath → ℤ → ℤ → List DownloadVersionRow → Bool
has_download_v path peer key [] = false
has_download_v path peer key (d ∷ ds) =
    (str_eq d.path path && eqb_ℤ d.peer peer && eqb_ℤ d.v_peer key)
    || has_download_v path peer key ds

-- "INSERT INTO downloads_v (path,peer,v_peer,v_version) VALUES (…)", for each entry.
unfoldable pub insert_download_v : FilePath → ℤ → VersionVector → M (Unit {0})
unfolding has_download_v
insert_download_v path peer [] db = ok tt db
insert_download_v path peer ((k, x) ∷ v) db =
    if has_download_v path peer k db.downloads_v
    then threw constraint db
    else insert_download_v path peer v (record db {
      downloads_v =
          db.downloads_v ++ record { path = path; peer = peer; v_peer = k; v_version = x } ∷ [];
    })

-- The statements of `addDownload` for a download that is there and has to start again.
unfoldable pub restart_download : FilePath → ℤ → ℤ → VersionVector → M (Unit {0})
unfolding restart delete_download_v insert_download_v
restart_download path peer size version =
    execute (λ db. record db { downloads = restart path peer size db.downloads })
    >> execute (λ db. record db { downloads_v = delete_download_v path peer db.downloads_v })
    >> insert_download_v path peer version

-- Those for a new download.
unfoldable pub create_download : FilePath → ℤ → ℤ → String → VersionVector → M (Unit {0})
unfolding insert_download_v
create_download path peer size temp version =
    execute (λ db. record db {
      downloads =
          db.downloads
          ++ record { path = path; peer = peer; tx = pos 0; temp = temp; recd = pos 0; size = size }
            ∷ [];
    })
    >> insert_download_v path peer version
