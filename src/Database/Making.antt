-- ===== src/Database/Making.antt =====
-- `mknod`: new files, and files that had been unlinked.
use mathlib.Core.Option.{or_else}
use text.Mathlib.TextPositions.{eq_refl}
use openbookfs.Prelude.{
  List, subst, ℕ, pos, suc, str_eq, eq_iff, ◌≡◌, refl, ◌∙◌, true, false, if◌then◌else◌, [], ◌∷◌,
  ◌++◌, none, some, arith, inl, inr, Bool-cases, Option-cases,
}
use openbookfs.VersionVector.{assign}
use openbookfs.Database.{FilePath, Paths, FileRow, VersionRow, Db}
use openbookfs.Database.Files.{
  select_id, select_child, select_subscribed, clashes, insert_or_ignore, insert_version_or_ignore,
  mknod, unlink,
}
use openbookfs.Database.Files.Lookup.{
  IsValid, VersionsBelow, insert_or_ignore-IsValid, select_id-append, select_subscribed-append,
  select_subscribed-unknown, select_id-clashes, select_id-set_subscribed,
  select_subscribed-set_subscribed, clashes-select, select_child-append, select_id_bound,
}
use openbookfs.Database.Versions.Loading.{load-append_row, load-VersionsBelow}
use openbookfs.Database.View.{view}
use openbookfs.Database.Lifecycle.{zero_row}

-- A file that has a row keeps all rows of the table as they are when it is made by `mknod`.
mknod-files :
    (paths : Paths) (path : FilePath) (db : Db) (id : ℕ)
    → select_id path db.files ≡ some id
    → (mknod paths path db).files ≡ db.files
unfolding mknod insert_or_ignore
mknod-files paths path db id known =
    elim (Option-cases (select_id (paths.parent_path path) db.files)) [
      | inl orphan ↦ ground arith
      | inr (parent, found) ↦
          ground (arith, select_id-clashes parent (paths.filename path) path id db.files known)
    ]

-- The row and the database of a new file.
abbrev new_row : Paths → FilePath → ℕ → Db → FileRow
new_row paths path parent db = record {
  id = db.next_file_id;
  parent = parent;
  node = paths.filename path;
  path = path;
  subscribed = true;
}

made : Paths → FilePath → ℕ → Db → Db
made paths path parent db = record db {
  files = db.files ++ new_row paths path parent db ∷ [];
  next_file_id = suc db.next_file_id;
  version = db.version ++ zero_row db.next_file_id ∷ [];
}

mknod_runs :
    (paths : Paths) (path : FilePath) (db : Db) (parent : ℕ)
    → IsValid db
    → select_id (paths.parent_path path) db.files ≡ some parent
    → clashes parent (paths.filename path) path db.files ≡ false
    → mknod paths path db ≡ made paths path parent db
unfolding mknod insert_or_ignore insert_version_or_ignore made select_child or_else
mknod_runs paths path db parent valid found free = ground (
  arith,
  select_child-append parent (paths.filename path) db.files (new_row paths path parent db ∷ []),
  clashes-select parent (paths.filename path) path db.files free,
  load-VersionsBelow db.next_file_id db.version [] (pos 0) valid.owned,
  eq_refl (paths.filename path),
)

VersionsBelow-append :
    (n : ℕ) (rs : List VersionRow) (r : VersionRow)
    → VersionsBelow n rs
    → r.file_id ≡ n
    → VersionsBelow (suc n) (rs ++ r ∷ [])
VersionsBelow-append n [] r b e = (omega arith, tt)
VersionsBelow-append n (q ∷ rs) r b e = (omega arith, VersionsBelow-append n rs r b.1 e)

-- The tables stay valid, and a path that had a row keeps it.
pub mknod-IsValid :
    (paths : Paths) (path : FilePath) (db : Db) (parent : ℕ)
    → IsValid db
    → select_id (paths.parent_path path) db.files ≡ some parent
    → clashes parent (paths.filename path) path db.files ≡ false
    → IsValid (mknod paths path db)
unfolding made insert_or_ignore
mknod-IsValid paths path db parent valid found free =
    let entered = insert_or_ignore-IsValid parent (paths.filename path) path true db valid in
    rw (mknod_runs paths path db parent valid found free, made)
      (let inserted : IsValid (record db {
        files = db.files ++ new_row paths path parent db ∷ [];
        next_file_id = suc db.next_file_id;
      }) =
          subst IsValid (rw (insert_or_ignore, free) refl) entered in
        record {
          distinct = inserted.distinct;
          below = inserted.below;
          owned =
              VersionsBelow-append db.next_file_id db.version (zero_row db.next_file_id) valid.owned
                refl;
        })

pub select_id-mknod :
    (paths : Paths) (path other : FilePath) (db : Db) (parent id : ℕ)
    → IsValid db
    → select_id (paths.parent_path path) db.files ≡ some parent
    → clashes parent (paths.filename path) path db.files ≡ false
    → select_id other db.files ≡ some id
    → select_id other (mknod paths path db).files ≡ some id
unfolding made or_else
select_id-mknod paths path other db parent id valid found free known =
    rw (mknod_runs paths path db parent valid found free, made)
      (ground (arith, select_id-append other db.files (new_row paths path parent db ∷ []), known))

view-append :
    (other : FilePath) (db : Db) (row : FileRow)
    → IsValid db
    → row.id ≡ db.next_file_id
    → select_id row.path db.files ≡ none
    → view
        (record db {
          files = db.files ++ row ∷ [];
          next_file_id = suc db.next_file_id;
          version = db.version ++ zero_row db.next_file_id ∷ [];
        })
        other
      ≡ (if str_eq other row.path
          then some (row.subscribed, (pos 0, pos 0) ∷ [])
          else view db other)
unfolding view select_id select_subscribed assign or_else
view-append other db row valid fresh absent = elim (Bool-cases (str_eq other row.path)) [
  | inl same ↦ rw ((eq_iff other row.path).0 same) (
      ground (
        arith,
        select_id-append row.path db.files (row ∷ []),
        select_subscribed-append row.path db.files (row ∷ []),
        select_subscribed-unknown row.path db.files absent,
        load-append_row db.next_file_id db.version (zero_row db.next_file_id) [],
        load-VersionsBelow db.next_file_id db.version [] (pos 0) valid.owned,
        eq_refl row.path,
      ))
  | inr differ ↦ elim (Option-cases (select_id other db.files)) [
    | inl none_yet ↦ ground (
      arith,
      select_id-append other db.files (row ∷ []),
      eq_iff other row.path,
      eq_iff row.path other,
    )
    | inr (j, found) ↦ ground (
      arith,
      select_id-append other db.files (row ∷ []),
      select_subscribed-append other db.files (row ∷ []),
      load-append_row j db.version (zero_row db.next_file_id) [],
      select_id_bound other db.next_file_id j db.files valid.below found,
      eq_iff other row.path,
      eq_iff row.path other,
    )
  ]
]

-- Making a new file in a directory that has a row, where neither its path nor its name in that
-- directory is taken, subscribes it at the version (0:0); every other path looks as before.
pub mknod_lem :
    (paths : Paths) (path other : FilePath) (db : Db) (parent : ℕ)
    → IsValid db
    → select_id (paths.parent_path path) db.files ≡ some parent
    → clashes parent (paths.filename path) path db.files ≡ false
    → view (mknod paths path db) other
      ≡ (if str_eq other path then some (true, (pos 0, pos 0) ∷ []) else view db other)
unfolding made
mknod_lem paths path other db parent valid found free =
    rw (mknod_runs paths path db parent valid found free, made)
      (view-append other db (new_row paths path parent db) valid refl
        (clashes-select parent (paths.filename path) path db.files free).0)

pub unlink-select :
    (junk : ℕ) (path : FilePath) (db : Db) (id : ℕ)
    → select_id path db.files ≡ some id
    → (select_id path (unlink junk path db).files ≡ some id)
      × (select_subscribed path (unlink junk path db).files ≡ some false)
unfolding unlink
unlink-select junk path db id known =
    rw (known, unlink)
      (
        select_id-set_subscribed path false id db.files ∙ known,
        ground (arith, select_subscribed-set_subscribed path false id id db.files known),
      )

-- A file that is unlinked and then made again does not become subscribed: its old row is still there,
-- and the insertion is ignored.
pub mknod-unlink :
    (paths : Paths) (junk : ℕ) (path : FilePath) (db : Db) (id : ℕ)
    → select_id path db.files ≡ some id
    → select_subscribed path (mknod paths path (unlink junk path db)).files ≡ some false
mknod-unlink paths junk path db id known =
    let look = unlink-select junk path db id known in
    rw (mknod-files paths path (unlink junk path db) id look.0) look.1
