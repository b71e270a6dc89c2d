-- ===== src/Database/Versions/Counting.antt =====
-- Local writes count up the own entry of a file's version; new peers enter with 0.
use mathlib.Core.Option
use mathlib.Core.Option.{or_else}
use openbookfs.Prelude.{
  ℕ, ℤ, pos, ◌≡◌, ◌∙◌, eqb_ℤ, eqb_ℤ_iff, true, false, ◌&&◌, if◌then◌else◌, ◌==◌, List, [], ◌∷◌,
  none, some, arith, inl, inr, Bool-cases, ◌+ℤ◌, +ℤ_parts, ap, ◌≤ℤ◌, pos_part, neg_part,
}
use openbookfs.VersionVector.{VersionVector, find, get, less, equal}
use openbookfs.VersionVector.Pointwise.{less_iff, equal_iff}
use openbookfs.Database.{FilePath, VersionRow, Db}
use openbookfs.Database.Files.{select_id, insert_version_or_ignore}
use openbookfs.Database.Versions.{
  get_version, increment, increment_version, assimilate, assimilate_keys,
}
use openbookfs.Database.Versions.Loading.{
  stored, stored-append, has_version-stored, stored-has_version,
}
use openbookfs.Database.Versions.Writing.{find-get_version}

stored-increment :
    (id q : ℕ) (k : ℤ) (rows : List VersionRow)
    → stored q k (increment id rows) ≡ (
        if id == q && eqb_ℤ (pos 0) k
        then Option.map (λ n. n +ℤ pos 1) (stored q k rows)
        else stored q k rows)
unfolding stored increment or_else
stored-increment id q k [] = ground arith
stored-increment id q k (r ∷ rs) = ground (
  arith,
  stored-increment id q k rs,
  eqb_ℤ_iff r.peer k,
  eqb_ℤ_iff r.peer (pos 0),
  eqb_ℤ_iff (pos 0) k,
)

find-increment_version :
    (junk id : ℕ) (path : FilePath) (db : Db) (k : ℤ)
    → select_id path db.files ≡ some id
    → find k (get_version junk path (increment_version junk path db) []) ≡ (
        if eqb_ℤ (pos 0) k
        then Option.map (λ n. n +ℤ pos 1) (find k (get_version junk path db []))
        else find k (get_version junk path db []))
unfolding increment_version
find-increment_version junk id path db k known =
    rw (known, increment_version)
      (rw (find-get_version junk id path db k known) (
        find-get_version junk id path (record db { version = increment id db.version }) k known
        ∙ ground (arith, stored-increment id id k db.version)))

-- After a local write the version of a file that has an own entry is strictly newer: the own entry is
-- one more, and every other entry is as before.
pub increment_version-newer :
    (junk id : ℕ) (path : FilePath) (db : Db) (n : ℤ)
    → select_id path db.files ≡ some id
    → find (pos 0) (get_version junk path db []) ≡ some n
    → let before = get_version junk path db [] in
      let after = get_version junk path (increment_version junk path db) [] in
      (get after (pos 0) ≡ n +ℤ pos 1)
      × ((k : ℤ) → find k after ≡ (if eqb_ℤ (pos 0) k then some (n +ℤ pos 1) else find k before))
      × (less before after ≡ true)
unfolding get
increment_version-newer junk id path db n known own =
    let before = get_version junk path db [] in
    let after = get_version junk path (increment_version junk path db) [] in
    (
      zero_entry,
      entries,
      (less_iff before after).1 (
        λ k. grows k,
        (
          pos 0,
          rw zero_entry
              (omega (arith, ap pos_part own_read, ap neg_part own_read, +ℤ_parts n (pos 1))),
        ),
      ),
    )
  where
    zero_entry :
        get (get_version junk path (increment_version junk path db) []) (pos 0) ≡ n +ℤ pos 1
    zero_entry =
        ground
          (arith, find-increment_version junk id path db (pos 0) known, eqb_ℤ_iff (pos 0) (pos 0))

    own_read : get (get_version junk path db []) (pos 0) ≡ n
    own_read = ground arith

    entries :
        (k : ℤ)
        → find k (get_version junk path (increment_version junk path db) [])
          ≡ (if eqb_ℤ (pos 0) k then some (n +ℤ pos 1) else find k (get_version junk path db []))
    entries k = elim (Bool-cases (eqb_ℤ (pos 0) k)) [
      | inl e ↦ rw (← (eqb_ℤ_iff (pos 0) k).0 e) (
          ground (
            arith,
            find-increment_version junk id path db (pos 0) known,
            eqb_ℤ_iff (pos 0) (pos 0),
          ))
      | inr e ↦ rw e (ground (arith, find-increment_version junk id path db k known))
    ]

    unchanged :
        (k : ℤ)
        → eqb_ℤ (pos 0) k ≡ false
        → get (get_version junk path (increment_version junk path db) []) k
          ≡ get (get_version junk path db []) k
    unchanged k e = ground (arith, find-increment_version junk id path db k known)

    grows :
        (k : ℤ)
        → get (get_version junk path db []) k
          ≤ℤ get (get_version junk path (increment_version junk path db) []) k
    grows k = elim (Bool-cases (eqb_ℤ (pos 0) k)) [
      | inl e ↦
          rw (← (eqb_ℤ_iff (pos 0) k).0 e, zero_entry, own_read) (omega (arith, +ℤ_parts n (pos 1)))
      | inr e ↦ rw (unchanged k e) (omega arith)
    ]

stored-insert_version_or_ignore :
    (id q : ℕ) (peer x k : ℤ) (rows : List VersionRow)
    → stored q k (insert_version_or_ignore id peer x rows)
      ≡ or_else (stored q k rows) (if id == q && eqb_ℤ peer k then some x else none)
unfolding insert_version_or_ignore or_else stored
stored-insert_version_or_ignore id q peer x k rows = ground (
  arith,
  stored-append q k rows (record { file_id = id; peer = peer; version = x } ∷ []),
  has_version-stored id peer rows,
  stored-has_version id peer rows,
  eqb_ℤ_iff peer k,
)

stored-assimilate :
    (id q : ℕ) (k : ℤ) (v : VersionVector) (rows : List VersionRow)
    → stored q k (assimilate id v rows)
      ≡ or_else (stored q k rows) (if id == q then Option.map (λ _. pos 0) (find k v) else none)
unfolding assimilate find or_else
stored-assimilate id q k [] rows = ground arith
stored-assimilate id q k ((j, x) ∷ v) rows = ground (
  arith,
  stored-assimilate id q k v (insert_version_or_ignore id j (pos 0) rows),
  stored-insert_version_or_ignore id q j (pos 0) k rows,
  eqb_ℤ_iff j k,
)

-- Assimilating the keys of a vector enters those that are missing, with the value 0, and changes no
-- entry that is there; so the new version compares equal to the old one.
pub assimilate_keys_lem :
    (junk id : ℕ) (path : FilePath) (v : VersionVector) (db : Db)
    → select_id path db.files ≡ some id
    → let before = get_version junk path db [] in
      let after = get_version junk path (assimilate_keys junk path v db) [] in
      ((k : ℤ) → find k after ≡ or_else (find k before) (Option.map (λ _. pos 0) (find k v)))
      × (equal before after ≡ true)
unfolding get assimilate_keys or_else
assimilate_keys_lem junk id path v db known = (
  entries,
  (equal_iff (get_version junk path db [])
        (get_version junk path (assimilate_keys junk path v db) [])).1
      same,
)
  where
    entries :
        (k : ℤ)
        → find k (get_version junk path (assimilate_keys junk path v db) [])
          ≡ or_else (find k (get_version junk path db [])) (Option.map (λ _. pos 0) (find k v))
    entries k =
        rw (known, assimilate_keys)
          (rw (find-get_version junk id path db k known) (
            find-get_version junk id path (record db { version = assimilate id v db.version }) k
              known
            ∙ ground (arith, stored-assimilate id id k v db.version)))

    same :
        (k : ℤ)
        → get (get_version junk path db []) k
          ≡ get (get_version junk path (assimilate_keys junk path v db) []) k
    same k = ground (arith, entries k)
