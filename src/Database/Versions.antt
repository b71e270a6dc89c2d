-- ===== src/Database/Versions.antt =====
-- Database.cpp, the table `version`: the version vector of each file that is checked out. An argument
-- named `junk` is what the uninitialised `fileId` of the method holds. The model reads 64-bit values
-- back whole; the code reads the columns through `row.get<int>`.
pub mod Loading
pub mod Writing
pub mod Counting
use openbookfs.Prelude.{
  ℕ, ℤ, pos, ◌+ℤ◌, Bool, true, false, not, ◌&&◌, if◌then◌else◌, ◌==◌, eqb_ℤ, List, [], ◌∷◌, ◌++◌,
}
use openbookfs.VersionVector.{VersionVector, assign}
use openbookfs.Database.{
  FilePath, VersionRow, Db, Failure, M, pure, ◌>>=◌, ◌>>◌, gets, execute, caught, into,
}
use openbookfs.Database.Files.{select_id, insert_version_or_ignore}

-- The rows of one file, read into a vector one after another.
pub load : ℕ → List VersionRow → VersionVector → VersionVector
load id [] v = v
load id (r ∷ rs) v = load id rs (if r.file_id == id then assign r.peer r.version v else v)

-- `lockless_getVersion`, into a vector that the caller passes.
unfoldable pub get_version : ℕ → FilePath → Db → VersionVector → VersionVector
unfolding load
get_version junk path db v = load (into junk (select_id path db.files)) db.version v

-- "DELETE" of the row that a REPLACE would violate UNIQUE with.
pub delete_pair : ℕ → ℤ → List VersionRow → List VersionRow
delete_pair id peer [] = []
delete_pair id peer (r ∷ rs) =
    let rest = delete_pair id peer rs in
    if r.file_id == id && eqb_ℤ r.peer peer then rest else r ∷ rest

-- "INSERT OR REPLACE INTO version (file_id,peer,version) VALUES (…)"
pub insert_or_replace : ℕ → ℤ → ℤ → List VersionRow → List VersionRow
unfolding delete_pair
insert_or_replace id peer version rows =
    delete_pair id peer rows ++ record { file_id = id; peer = peer; version = version } ∷ []

pub replace_all : ℕ → VersionVector → List VersionRow → List VersionRow
unfolding insert_or_replace
replace_all id [] rows = rows
replace_all id ((k, x) ∷ v) rows = replace_all id v (insert_or_replace id k x rows)

-- `lockless_setVersion`
unfoldable pub set_version : ℕ → FilePath → VersionVector → Db → Db
unfolding replace_all
set_version junk path v db = record db {
  version = replace_all (into junk (select_id path db.files)) v db.version;
}

-- "UPDATE version SET version=version+1 WHERE file_id=%d AND peer=0"
pub increment : ℕ → List VersionRow → List VersionRow
increment id [] = []
increment id (r ∷ rs) =
    (if r.file_id == id && eqb_ℤ r.peer (pos 0)
      then record r { version = r.version +ℤ pos 1 }
      else r)
    ∷ increment id rs

-- `lockless_incrementVersion`
unfoldable pub increment_version : ℕ → FilePath → Db → Db
unfolding increment
increment_version junk path db = record db {
  version = increment (into junk (select_id path db.files)) db.version;
}

pub assimilate : ℕ → VersionVector → List VersionRow → List VersionRow
assimilate id [] rows = rows
assimilate id ((k, x) ∷ v) rows = assimilate id v (insert_version_or_ignore id k (pos 0) rows)

-- `lockless_assimilateKeys`
unfoldable pub assimilate_keys : ℕ → FilePath → VersionVector → Db → Db
unfolding assimilate insert_version_or_ignore
assimilate_keys junk path v db = record db {
  version = assimilate (into junk (select_id path db.files)) v db.version;
}
