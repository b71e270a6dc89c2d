-- ===== src/Database/Versions/Writing.antt =====
-- What the methods on versions do to the vectors that `get_version` reads afterwards.
use mathlib.Core.Option.{or_else}
use openbookfs.Prelude.{ℕ, ℤ, ◌≡◌, ◌∙◌, eqb_ℤ_iff, if◌then◌else◌, ◌==◌, List, [], ◌∷◌, some, arith}
use openbookfs.VersionVector.{VersionVector, find}
use openbookfs.VersionVector.Sorted.{IsMap, find-AllAbove}
use openbookfs.Database.{FilePath, VersionRow, Db}
use openbookfs.Database.Files.{select_id}
use openbookfs.Database.Versions.{get_version, insert_or_replace, replace_all, set_version}
use openbookfs.Database.Versions.Loading.{stored, find-load, stored-insert_or_replace}

-- Where the path is known, the vector holds what is stored for its file.
pub find-get_version :
    (junk id : ℕ) (path : FilePath) (db : Db) (k : ℤ)
    → select_id path db.files ≡ some id
    → find k (get_version junk path db []) ≡ stored id k db.version
unfolding get_version find or_else
find-get_version junk id path db k known =
    rw (known, get_version) (ground (arith, find-load id db.version [] k))

stored-replace_all :
    (id q : ℕ) (k : ℤ) (v : VersionVector) (rows : List VersionRow)
    → IsMap v
    → stored q k (replace_all id v rows)
      ≡ (if id == q then or_else (find k v) (stored q k rows) else stored q k rows)
unfolding replace_all find or_else
stored-replace_all id q k [] rows s = ground arith
stored-replace_all id q k ((j, x) ∷ v) rows s = ground (
  arith,
  stored-replace_all id q k v (insert_or_replace id j x rows) s.1,
  stored-insert_or_replace id q j x k rows,
  find-AllAbove j v s.0,
  eqb_ℤ_iff j k,
)

-- After `setVersion` an entry of the vector reads as set, and any other entry of the file as before;
-- the versions of files with another id do not change.
pub set_version_lem :
    (junk id j : ℕ) (path other : FilePath) (v : VersionVector) (db : Db) (k : ℤ)
    → IsMap v
    → select_id path db.files ≡ some id
    → select_id other db.files ≡ some j
    → find k (get_version junk other (set_version junk path v db) []) ≡ (
        if id == j
        then or_else (find k v) (find k (get_version junk other db []))
        else find k (get_version junk other db []))
unfolding set_version
set_version_lem junk id j path other v db k s known found =
    rw (known, set_version)
      (rw (find-get_version junk j other db k found) (
        find-get_version junk j other (record db { version = replace_all id v db.version }) k found
        ∙ stored-replace_all id j k v db.version s))
