-- ===== src/Database/Lifecycle.antt =====
-- A file's life in the tables: checked out, released and unlinked, as changes of the view.
use openbookfs.Prelude.{
  ℕ, pos, str_eq, ◌≡◌, refl, Bool, true, false, not, ◌&&◌, if◌then◌else◌, [], ◌∷◌, ◌++◌, some,
  arith,
}
use openbookfs.VersionVector.{assign}
use openbookfs.Database.{FilePath, VersionRow, Db, throw_if, caught, Failure, os_error}
use openbookfs.Database.Files.{
  select_id, select_subscribed, set_subscribed, delete_versions, has_version, unlink, checkout,
  release,
}
use openbookfs.Database.Files.Lookup.{
  IsValid, select_id-set_subscribed, select_subscribed-set_subscribed, set_subscribed_undo,
}
use openbookfs.Database.Versions.Loading.{
  load-delete_versions, load-append_row, delete_versions-append_row,
}
use openbookfs.Database.View.{view, view_updated}

-- A failure after the last statement changes nothing.
caught-throw_if : (b : Bool) (e : Failure) (db : Db) → caught (throw_if b e db) ≡ db
caught-throw_if true e db = refl
caught-throw_if false e db = refl

forgotten : ℕ → Db → Db
forgotten id db = record db {
  files = set_subscribed false id db.files;
  version = delete_versions id db.version;
}

-- The two statements that `unlink` and `release` share.
view-forgotten :
    (path other : FilePath) (db : Db) (id : ℕ)
    → IsValid db
    → select_id path db.files ≡ some id
    → view (forgotten id db) other ≡ (if str_eq other path then some (false, []) else view db other)
unfolding forgotten
view-forgotten path other db id valid known =
    view_updated path other db id false (delete_versions id db.version) [] valid.distinct known
      (λ j. ground (arith, load-delete_versions id j db.version []))

-- Unlinking a file ends its subscription and its version; every other path looks as before.
pub unlink_lem :
    (junk : ℕ) (path other : FilePath) (db : Db) (id : ℕ)
    → IsValid db
    → select_id path db.files ≡ some id
    → view (unlink junk path db) other
      ≡ (if str_eq other path then some (false, []) else view db other)
unfolding unlink forgotten
unlink_lem junk path other db id valid known =
    rw (known, unlink) (view-forgotten path other db id valid known)

-- Releasing does the same to a subscribed file, whether or not its contents can be removed from the
-- disk, and nothing to a file that is not subscribed.
pub release_lem :
    (junk : ℕ) (junk_subscribed unlinked s : Bool) (path other : FilePath) (db : Db) (id : ℕ)
    → IsValid db
    → select_id path db.files ≡ some id
    → select_subscribed path db.files ≡ some s
    → view (release junk junk_subscribed path unlinked db) other
      ≡ (if s && str_eq other path then some (false, []) else view db other)
unfolding release forgotten
release_lem junk junk_subscribed unlinked true path other db id valid known marked =
    rw (known, release)
      (rw marked (
        rw (caught-throw_if (not unlinked) os_error (unfold forgotten in forgotten id db))
          (view-forgotten path other db id valid known)))
release_lem junk junk_subscribed unlinked false path other db id valid known marked =
    rw (known, release) (rw marked refl)

abbrev pub zero_row : ℕ → VersionRow
zero_row id = record { file_id = id; peer = pos 0; version = pos 0 }

checked_out : ℕ → Db → Db
checked_out id db = record db {
  files = set_subscribed true id db.files;
  version = db.version ++ zero_row id ∷ [];
}

checkout_runs :
    (junk : ℕ) (junk_subscribed created : Bool) (path : FilePath) (db : Db) (id : ℕ)
    → select_id path db.files ≡ some id
    → select_subscribed path db.files ≡ some false
    → has_version id (pos 0) db.version ≡ false
    → checkout junk junk_subscribed path created db ≡ checked_out id db
unfolding checkout checked_out
checkout_runs junk junk_subscribed created path db id known off none_yet = ground arith

-- Checking out a known file that is not subscribed and has no version rows subscribes it and gives it
-- the version (0:0), also where the empty file cannot be made; every other path looks as before.
pub checkout_lem :
    (junk : ℕ) (junk_subscribed created : Bool) (path other : FilePath) (db : Db) (id : ℕ)
    → IsValid db
    → select_id path db.files ≡ some id
    → select_subscribed path db.files ≡ some false
    → delete_versions id db.version ≡ db.version
    → has_version id (pos 0) db.version ≡ false
    → view (checkout junk junk_subscribed path created db) other
      ≡ (if str_eq other path then some (true, (pos 0, pos 0) ∷ []) else view db other)
unfolding checked_out assign
checkout_lem junk junk_subscribed created path other db id valid known off rowless none_yet =
    rw (checkout_runs junk junk_subscribed created path db id known off none_yet, checked_out)
      (view_updated path other db id true (db.version ++ zero_row id ∷ []) ((pos 0, pos 0) ∷ [])
        valid.distinct known
        (λ j. ground (
          arith,
          load-append_row j db.version (zero_row id) [],
          load-delete_versions id j db.version [],
        )))

-- Checking a file out and releasing it leaves the whole database as it was, if the file was not
-- subscribed and had no version rows.
pub release-checkout :
    (junk : ℕ) (junk_subscribed created unlinked : Bool) (path : FilePath) (db : Db) (id : ℕ)
    → IsValid db
    → select_id path db.files ≡ some id
    → select_subscribed path db.files ≡ some false
    → delete_versions id db.version ≡ db.version
    → has_version id (pos 0) db.version ≡ false
    → release junk junk_subscribed path unlinked (checkout junk junk_subscribed path created db)
      ≡ db
unfolding release checked_out
release-checkout junk junk_subscribed created unlinked path db id valid known off rowless none_yet =
    rw (checkout_runs junk junk_subscribed created path db id known off none_yet) (
      ground (
        arith,
        set_subscribed_undo path id db.files valid.distinct known off,
        select_id-set_subscribed path true id db.files,
        select_subscribed-set_subscribed path true id id db.files known,
        delete_versions-append_row id db.version (zero_row id),
      ))
