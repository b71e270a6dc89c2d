-- ===== src/Database/Versions/Loading.antt =====
-- The vector that is read from the table, entry by entry: the last row of a file and a key counts.
use mathlib.Core.Option.{or_else}
use openbookfs.Prelude.{
  ℕ, ℤ, ◌≡◌, refl, ◌≢◌, eqb_ℤ, eqb_ℤ_iff, true, false, ◌&&◌, if◌then◌else◌, ◌==◌, List, [], ◌∷◌,
  ◌++◌, Option, none, some, arith,
}
use openbookfs.VersionVector.{VersionVector, find, assign}
use openbookfs.VersionVector.Entries.{find-assign}
use openbookfs.Database.{VersionRow}
use openbookfs.Database.Files.{delete_versions, has_version}
use openbookfs.Database.Files.Lookup.{VersionsBelow}
use openbookfs.Database.Versions.{load, delete_pair, insert_or_replace}

unfoldable pub stored : ℕ → ℤ → List VersionRow → Option ℤ
stored id k [] = none
stored id k (r ∷ rs) =
    or_else (stored id k rs) (if r.file_id == id && eqb_ℤ r.peer k then some r.version else none)

pub find-load :
    (id : ℕ) (rows : List VersionRow) (v : VersionVector) (k : ℤ)
    → find k (load id rows v) ≡ or_else (stored id k rows) (find k v)
unfolding load stored or_else
find-load id [] v k = refl
find-load id (r ∷ rs) v k = ground (
  arith,
  find-load id rs (if r.file_id == id then assign r.peer r.version v else v) k,
  find-assign r.peer r.version v k,
)

pub stored-append :
    (id : ℕ) (k : ℤ) (xs ys : List VersionRow)
    → stored id k (xs ++ ys) ≡ or_else (stored id k ys) (stored id k xs)
unfolding stored or_else
stored-append id k [] ys = ground arith
stored-append id k (x ∷ xs) ys = ground (arith, stored-append id k xs ys)

pub stored-delete_versions :
    (id q : ℕ) (k : ℤ) (rows : List VersionRow)
    → stored q k (delete_versions id rows) ≡ (if id == q then none else stored q k rows)
unfolding stored delete_versions or_else
stored-delete_versions id q k [] = ground arith
stored-delete_versions id q k (r ∷ rs) = ground (arith, stored-delete_versions id q k rs)

pub stored-delete_pair :
    (id q : ℕ) (peer k : ℤ) (rows : List VersionRow)
    → stored q k (delete_pair id peer rows)
      ≡ (if id == q && eqb_ℤ peer k then none else stored q k rows)
unfolding stored delete_pair or_else
stored-delete_pair id q peer k [] = ground arith
stored-delete_pair id q peer k (r ∷ rs) = ground (
  arith,
  stored-delete_pair id q peer k rs,
  eqb_ℤ_iff peer k,
  eqb_ℤ_iff r.peer k,
  eqb_ℤ_iff r.peer peer,
)

pub stored-insert_or_replace :
    (id q : ℕ) (peer x k : ℤ) (rows : List VersionRow)
    → stored q k (insert_or_replace id peer x rows)
      ≡ (if id == q && eqb_ℤ peer k then some x else stored q k rows)
unfolding insert_or_replace or_else stored
stored-insert_or_replace id q peer x k rows = ground (
  arith,
  stored-append q k (delete_pair id peer rows)
      (record { file_id = id; peer = peer; version = x } ∷ []),
  stored-delete_pair id q peer k rows,
)

pub has_version-stored :
    (id : ℕ) (k : ℤ) (rows : List VersionRow)
    → has_version id k rows ≡ false
    → stored id k rows ≡ none
unfolding has_version stored or_else
has_version-stored id k [] h = refl
has_version-stored id k (r ∷ rs) h = ground (arith, has_version-stored id k rs)

pub stored-has_version :
    (id : ℕ) (k : ℤ) (rows : List VersionRow)
    → has_version id k rows ≡ true
    → stored id k rows ≢ none
unfolding has_version stored or_else
stored-has_version id k [] h = cc
stored-has_version id k (r ∷ rs) h = ground (arith, stored-has_version id k rs)

-- With its rows deleted a file reads as the vector that is passed in; other files read as before.
pub load-delete_versions :
    (id q : ℕ) (rows : List VersionRow) (v : VersionVector)
    → load q (delete_versions id rows) v ≡ (if id == q then v else load q rows v)
unfolding load delete_versions
load-delete_versions id q [] v = ground arith
load-delete_versions id q (r ∷ rs) v = ground (
  arith,
  load-delete_versions id q rs v,
  load-delete_versions id q rs (if r.file_id == q then assign r.peer r.version v else v),
)

pub load-append_row :
    (q : ℕ) (rows : List VersionRow) (r : VersionRow) (v : VersionVector)
    → load q (rows ++ r ∷ []) v
      ≡ (if r.file_id == q then assign r.peer r.version (load q rows v) else load q rows v)
unfolding load
load-append_row q [] r v = ground arith
load-append_row q (x ∷ xs) r v =
    load-append_row q xs r (if x.file_id == q then assign x.peer x.version v else v)

pub delete_versions-append_row :
    (id : ℕ) (rows : List VersionRow) (r : VersionRow)
    → r.file_id ≡ id
    → delete_versions id (rows ++ r ∷ []) ≡ delete_versions id rows
unfolding delete_versions
delete_versions-append_row id [] r e = ground arith
delete_versions-append_row id (x ∷ xs) r e = ground (arith, delete_versions-append_row id xs r e)

-- An id that has not been given out has no rows.
pub load-VersionsBelow :
    (n : ℕ) (rows : List VersionRow) (v : VersionVector) (k : ℤ)
    → VersionsBelow n rows
    → (load n rows v ≡ v) × (has_version n k rows ≡ false)
unfolding load has_version
load-VersionsBelow n [] v k b = (refl, refl)
load-VersionsBelow n (r ∷ rs) v k b = ground (arith, load-VersionsBelow n rs v k b.1)
