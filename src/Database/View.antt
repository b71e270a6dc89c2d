-- ===== src/Database/View.antt =====
-- The database as the rest of the program sees it: which paths have a row, whether each is subscribed,
-- and its version vector.
use openbookfs.Prelude.{
  ℕ, str_eq, eq_iff, ◌≡◌, ◌∙◌, ◌≢◌, Bool, false, if◌then◌else◌, ◌==◌, List, [], Option, none, some,
  arith, inl, inr, Bool-cases, Option-cases, ap,
}
use openbookfs.VersionVector.{VersionVector}
use openbookfs.Database.{FilePath, VersionRow, Db, into}
use openbookfs.Database.Files.{select_id, select_subscribed, set_subscribed}
use openbookfs.Database.Files.Lookup.{
  AreDistinct, select_id-set_subscribed, select_subscribed-set_subscribed, select_id-injective,
}
use openbookfs.Database.Versions.{load}

unfoldable pub view : Db → FilePath → Option (Bool × VersionVector)
view db p = elim (select_id p db.files) [
  | none ↦ none
  | some id ↦ some (into false (select_subscribed p db.files), load id db.version [])
]

-- Where only the mark and the versions of one file change, so does the view of that path alone.
pub view_updated :
    (path other : FilePath) (db : Db) (id : ℕ) (s : Bool) (rows : List VersionRow)
    (v : VersionVector)
    → AreDistinct db.files
    → select_id path db.files ≡ some id
    → ((j : ℕ) → load j rows [] ≡ (if j == id then v else load j db.version []))
    → view (record db { files = set_subscribed s id db.files; version = rows }) other
      ≡ (if str_eq other path then some (s, v) else view db other)
unfolding view
view_updated path other db id s rows v distinct known loads =
    elim (Bool-cases (str_eq other path)) [
      | inl same ↦ rw ((eq_iff other path).0 same) (
          ground (
            arith,
            select_id-set_subscribed path s id db.files,
            select_subscribed-set_subscribed path s id id db.files known,
            loads id,
            eq_iff path path,
          ))
      | inr differ ↦ elim (Option-cases (select_id other db.files)) [
        | inl absent ↦ ground (arith, select_id-set_subscribed other s id db.files)
        | inr (j, found) ↦ ground (
          arith,
          select_id-set_subscribed other s id db.files,
          select_subscribed-set_subscribed other s id j db.files found,
          loads j,
          apart j found,
        )
      ]
    ]
  where
    apart : (j : ℕ) → select_id other db.files ≡ some j → str_eq other path ≡ false → j ≢ id
    apart j found differ e = ground (
      arith,
      (eq_iff other path).1
          (select_id-injective other path id db.files distinct (found ∙ ap some e) known),
    )
