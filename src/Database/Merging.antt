-- ===== src/Database/Merging.antt =====
-- `merge`: the entries of a peer's directory are entered without subscription.
use mathlib.Core.Option.{or_else}
use text.Mathlib.TextPositions.{eq_refl}
use openbookfs.Prelude.{
  ℕ, pos, String, ◌≡◌, refl, Bool, true, false, ◌||◌, List, [], ◌∷◌, ◌++◌, none, some, arith, inl,
  inr, Option-cases, ◌⊎◌,
}
use openbookfs.VersionVector.{VersionVector}
use openbookfs.Database.{FilePath, Paths, FileRow, Db, into}
use openbookfs.Database.Files.{
  select_id, select_subscribed, clashes, insert_or_ignore, merge, merge_entries,
}
use openbookfs.Database.Files.Lookup.{
  IsValid, select_id-append, select_subscribed-append, insert_or_ignore-IsValid,
  select_subscribed-known, select_subscribed-unknown,
}
use openbookfs.Database.Versions.Loading.{load-VersionsBelow}
use openbookfs.Database.View.{view}

clashes-append :
    (parent : ℕ) (node : String) (path : FilePath) (xs ys : List FileRow)
    → clashes parent node path (xs ++ ys)
      ≡ clashes parent node path xs || clashes parent node path ys
unfolding clashes
clashes-append parent node path [] ys = refl
clashes-append parent node path (x ∷ xs) ys = ground (arith, clashes-append parent node path xs ys)

-- An insertion is ignored from then on, and so is every one that was ignored before.
insert-clashes :
    (parent parent' : ℕ) (node node' : String) (path path' : FilePath) (s : Bool) (db : Db)
    → (clashes parent node path (insert_or_ignore parent node path s db).files ≡ true)
      × (clashes parent' node' path' db.files ≡ true
          → clashes parent' node' path' (insert_or_ignore parent node path s db).files ≡ true)
unfolding insert_or_ignore clashes
insert-clashes parent parent' node node' path path' s db = (
  ground (arith, clashes-append parent node path db.files (row ∷ []), eq_refl path),
  λ h. ground (arith, clashes-append parent' node' path' db.files (row ∷ [])),
)
  where
    row : FileRow
    row = record { id = db.next_file_id; parent = parent; node = node; path = path; subscribed = s }

abbrev entry_row : ℕ → ℕ → String → FilePath → FileRow
entry_row id parent node path = record {
  id = id;
  parent = parent;
  node = node;
  path = path;
  subscribed = false;
}

view-insert_known :
    (parent : ℕ) (node : String) (path other : FilePath) (db : Db) (look : Bool × VersionVector)
    → view db other ≡ some look
    → view (insert_or_ignore parent node path false db) other ≡ some look
unfolding view insert_or_ignore or_else
view-insert_known parent node path other db look h =
    elim (Option-cases (select_id other db.files)) [
      | inl absent ↦ ground arith
      | inr (j, found) ↦ ground (
        arith,
        select_id-append other db.files (entry_row db.next_file_id parent node path ∷ []),
        select_subscribed-append other db.files (entry_row db.next_file_id parent node path ∷ []),
        select_subscribed-known other j db.files found,
      )
    ]

view-insert_new :
    (parent : ℕ) (node : String) (path other : FilePath) (db : Db)
    → IsValid db
    → view db other ≡ none
    → (view (insert_or_ignore parent node path false db) other ≡ none)
      ⊎ (view (insert_or_ignore parent node path false db) other ≡ some (false, []))
unfolding view insert_or_ignore or_else select_id select_subscribed
view-insert_new parent node path other db valid h = elim (Option-cases (select_id other db.files)) [
  | inr (j, found) ↦ ground arith
  | inl absent ↦ ground (
    arith,
    select_id-append other db.files (entry_row db.next_file_id parent node path ∷ []),
    select_subscribed-append other db.files (entry_row db.next_file_id parent node path ∷ []),
    select_subscribed-unknown other db.files absent,
    load-VersionsBelow db.next_file_id db.version [] (pos 0) valid.owned,
  )
]

insert-select_id :
    (parent j : ℕ) (node : String) (path other : FilePath) (db : Db)
    → select_id other db.files ≡ some j
    → select_id other (insert_or_ignore parent node path false db).files ≡ some j
unfolding insert_or_ignore or_else
insert-select_id parent j node path other db h =
    ground
      (arith, select_id-append other db.files (entry_row db.next_file_id parent node path ∷ []))

module _ (paths : Paths) (id : ℕ) (path : FilePath) where
  entries_known :
      (other : FilePath) (es : List String) (db : Db) (look : Bool × VersionVector)
      → view db other ≡ some look
      → view (merge_entries paths id path es db) other ≡ some look
  unfolding merge_entries
  entries_known other [] db look h = h
  entries_known other (e ∷ es) db look h =
      entries_known other es _ look (view-insert_known id e (paths.join path e) other db look h)

  entries_new :
      (other : FilePath) (es : List String) (db : Db)
      → IsValid db
      → view db other ≡ none
      → (view (merge_entries paths id path es db) other ≡ none)
        ⊎ (view (merge_entries paths id path es db) other ≡ some (false, []))
  unfolding merge_entries
  entries_new other [] db valid h = inl h
  entries_new other (e ∷ es) db valid h =
      elim (view-insert_new id e (paths.join path e) other db valid h) [
        | inl n ↦
            entries_new other es _
              (insert_or_ignore-IsValid id e (paths.join path e) false db valid) n
        | inr s ↦ inr (entries_known other es _ (false, []) s)
      ]

  entries-IsValid :
      (es : List String) (db : Db) → IsValid db → IsValid (merge_entries paths id path es db)
  unfolding merge_entries
  entries-IsValid [] db v = v
  entries-IsValid (e ∷ es) db v =
      entries-IsValid es _ (insert_or_ignore-IsValid id e (paths.join path e) false db v)

  entries_id :
      (j : ℕ) (es : List String) (db : Db)
      → select_id path db.files ≡ some j
      → select_id path (merge_entries paths id path es db).files ≡ some j
  unfolding merge_entries
  entries_id j [] db h = h
  entries_id j (e ∷ es) db h =
      entries_id j es _ (insert-select_id id j e (paths.join path e) path db h)

  abbrev AllClash : List String → Db → Type 0
  AllClash [] db = Unit {0}
  AllClash (e ∷ es) db = (clashes id e (paths.join path e) db.files ≡ true) × AllClash es db

  entries_keep :
      (node : String) (p : FilePath) (es : List String) (db : Db)
      → clashes id node p db.files ≡ true
      → clashes id node p (merge_entries paths id path es db).files ≡ true
  unfolding merge_entries
  entries_keep node p [] db h = h
  entries_keep node p (e ∷ es) db h =
      entries_keep node p es _ ((insert-clashes id id e node (paths.join path e) p false db).1 h)

  entries-AllClash : (es : List String) (db : Db) → AllClash es (merge_entries paths id path es db)
  unfolding merge_entries
  entries-AllClash [] db = tt
  entries-AllClash (e ∷ es) db = (
    entries_keep e (paths.join path e) es _
        (insert-clashes id id e e (paths.join path e) (paths.join path e) false db).0,
    entries-AllClash es _,
  )

  clashing_entries :
      (es : List String) (db : Db) → AllClash es db → merge_entries paths id path es db ≡ db
  unfolding merge_entries insert_or_ignore
  clashing_entries [] db h = refl
  clashing_entries (e ∷ es) db h = rw (h.0) (clashing_entries es db h.1)

-- Merging a directory listing changes nothing for a path that has a row: its subscription and its
-- version stay.
pub merge_known :
    (paths : Paths) (junk : ℕ) (path other : FilePath) (entries : List String) (db : Db)
    (look : Bool × VersionVector)
    → view db other ≡ some look
    → view (merge paths junk path entries db) other ≡ some look
unfolding merge
merge_known paths junk path other entries db look h =
    entries_known paths (into junk (select_id path db.files)) path other entries db look h

-- A path that had no row has none after the merge either, or has become an unsubscribed file without
-- a version; and the table stays valid.
pub merge_new :
    (paths : Paths) (junk : ℕ) (path other : FilePath) (entries : List String) (db : Db)
    → IsValid db
    → view db other ≡ none
    → ((view (merge paths junk path entries db) other ≡ none)
        ⊎ (view (merge paths junk path entries db) other ≡ some (false, [])))
      × IsValid (merge paths junk path entries db)
unfolding merge
merge_new paths junk path other entries db valid h = (
  entries_new paths (into junk (select_id path db.files)) path other entries db valid h,
  entries-IsValid paths (into junk (select_id path db.files)) path entries db valid,
)

-- Merging the same listing of a known directory once more changes nothing.
pub merge_idem :
    (paths : Paths) (junk : ℕ) (path : FilePath) (entries : List String) (db : Db) (id : ℕ)
    → select_id path db.files ≡ some id
    → merge paths junk path entries (merge paths junk path entries db)
      ≡ merge paths junk path entries db
unfolding merge
merge_idem paths junk path entries db id known = rw known (
    rw (entries_id paths id path id entries db known)
      (clashing_entries paths id path entries _ (entries-AllClash paths id path entries db)))
