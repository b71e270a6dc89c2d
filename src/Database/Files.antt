-- ===== src/Database/Files.antt =====
-- Database.cpp, the table `files`: nodes are entered, unsubscribed, listed, merged, checked out and
-- released. An argument named `junk` is what an uninitialised local variable of the method holds.
pub mod Lookup
use openbookfs.Prelude.{
  ℕ, ℤ, pos, suc, String, str_eq, Bool, true, false, not, ◌&&◌, ◌||◌, if◌then◌else◌, ◌==◌, ltb,
  eqb_ℤ, List, [], ◌∷◌, ◌++◌, map, Option, none, some, drop,
}
use openbookfs.Database.{
  FilePath, Paths, FileRow, VersionRow, Db, Failure, parent_missing, not_entered, constraint,
  already_subscribed, not_subscribed, os_error, Outcome, M, pure, ◌>>=◌, ◌>>◌, gets, execute,
  throw_if, throw, caught, into,
}

-- "SELECT id FROM files WHERE path='%s'"
unfoldable pub select_id : FilePath → List FileRow → Option ℕ
select_id path [] = none
select_id path (f ∷ fs) = if str_eq f.path path then some f.id else select_id path fs

-- "SELECT id FROM files where parent=%d AND node='%s'"
unfoldable pub select_child : ℕ → String → List FileRow → Option ℕ
select_child parent node [] = none
select_child parent node (f ∷ fs) =
    if f.parent == parent && str_eq f.node node then some f.id else select_child parent node fs

-- "SELECT subscribed FROM files WHERE path='%s'"
unfoldable pub select_subscribed : FilePath → List FileRow → Option Bool
select_subscribed path [] = none
select_subscribed path (f ∷ fs) =
    if str_eq f.path path then some f.subscribed else select_subscribed path fs

-- The constraints UNIQUE of the table: on `path`, and on `parent` with `node`.
unfoldable pub clashes : ℕ → String → FilePath → List FileRow → Bool
clashes parent node path [] = false
clashes parent node path (f ∷ fs) =
    str_eq f.path path || (f.parent == parent && str_eq f.node node) || clashes parent node path fs

-- "INSERT OR IGNORE INTO files (parent,node,path,subscribed) VALUES (…)"
unfoldable pub insert_or_ignore : ℕ → String → FilePath → Bool → Db → Db
unfolding clashes
insert_or_ignore parent node path subscribed db =
    if clashes parent node path db.files then db else record db {
      files =
          db.files
          ++ record {
            id = db.next_file_id;
            parent = parent;
            node = node;
            path = path;
            subscribed = subscribed;
          }
            ∷ [];
      next_file_id = suc db.next_file_id;
    }

-- "UPDATE files SET subscribed=… WHERE id=%d"
unfoldable pub set_subscribed : Bool → ℕ → List FileRow → List FileRow
set_subscribed s id [] = []
set_subscribed s id (f ∷ fs) =
    (if f.id == id then record f { subscribed = s } else f) ∷ set_subscribed s id fs

-- "DELETE FROM version WHERE file_id=%d"
unfoldable pub delete_versions : ℕ → List VersionRow → List VersionRow
delete_versions id [] = []
delete_versions id (r ∷ rs) =
    let rest = delete_versions id rs in if r.file_id == id then rest else r ∷ rest

-- The constraint UNIQUE (file_id,peer) of the table `version`.
unfoldable pub has_version : ℕ → ℤ → List VersionRow → Bool
has_version id peer [] = false
has_version id peer (r ∷ rs) = (r.file_id == id && eqb_ℤ r.peer peer) || has_version id peer rs

-- "INSERT OR IGNORE INTO version (file_id,peer,version) VALUES (…)"
unfoldable pub insert_version_or_ignore : ℕ → ℤ → ℤ → List VersionRow → List VersionRow
unfolding has_version
insert_version_or_ignore id peer version rows =
    if has_version id peer rows
    then rows
    else rows ++ record { file_id = id; peer = peer; version = version } ∷ []

-- "INSERT INTO version (file_id,peer,version) VALUES (…)": refused where the pair is there.
insert_version : ℕ → ℤ → ℤ → M (Unit {0})
unfolding has_version
insert_version id peer version = do
  taken ← gets (λ db. has_version id peer db.version)
  throw_if taken constraint
  execute λ db. record db {
    version = db.version ++ record { file_id = id; peer = peer; version = version } ∷ [];
  }

-- The statements that enter the root, in `Database::init`.
unfoldable pub init_root : Db → Db
unfolding insert_or_ignore
init_root db = insert_or_ignore 0 "/" "/" false db

module _ (paths : Paths) where
  -- The body of the `try` of `lockless_mknod`. `parentId` is initialised, to -1: that is `none` here.
  mknod_body : FilePath → M (Unit {0})
  unfolding select_id select_child insert_or_ignore insert_version_or_ignore
  mknod_body path = do
    parent_id ← gets (λ db. select_id (paths.parent_path path) db.files)
    elim parent_id [
      | none ↦ throw parent_missing
      | some parent ↦ do
        execute (insert_or_ignore parent (paths.filename path) path true)
        file_id ← gets (λ db. select_child parent (paths.filename path) db.files)
        elim file_id [
          | none ↦ throw not_entered
          | some id ↦
              execute
                λ db. record db { version = insert_version_or_ignore id (pos 0) (pos 0) db.version }
        ]
    ]

  unfoldable pub mknod : FilePath → Db → Db
  unfolding mknod_body
  mknod path db = caught (mknod_body path db)

-- `lockless_unlink`: the row stays, without subscription and versions.
unfoldable pub unlink : ℕ → FilePath → Db → Db
unfolding select_id set_subscribed delete_versions
unlink junk path db = caught (
    (do
      file_id ← gets (λ db. into junk (select_id path db.files))
      execute (λ db. record db { files = set_subscribed false file_id db.files })
      execute (λ db. record db { version = delete_versions file_id db.version }))
      db)

-- "SELECT node FROM files WHERE parent=%d"
unfoldable pub children : ℕ → List FileRow → List String
children id [] = []
children id (f ∷ fs) = let rest = children id fs in if f.parent == id then f.node ∷ rest else rest

-- "SELECT node FROM files WHERE parent=%d AND subscribed=1"
unfoldable pub subscribed_children : ℕ → List FileRow → List String
subscribed_children id [] = []
subscribed_children id (f ∷ fs) =
    let rest = subscribed_children id fs in
    if f.parent == id && f.subscribed then f.node ∷ rest else rest

-- The three `lockless_readdir`. ORDER BY is the engine's, a function on the nodes.
module _ (order_by : List String → List String) where
  -- Into a listing, of the subscribed children alone if asked.
  unfoldable pub readdir_list : ℕ → FilePath → Bool → Db → List String → List String
  unfolding select_id children subscribed_children
  readdir_list junk path subscribed db listing =
      let file_id = into junk (select_id path db.files) in
      listing
      ++ (if subscribed
          then order_by (subscribed_children file_id db.files)
          else order_by (children file_id db.files))

  -- Into the entries of a DirChunk.
  unfoldable pub readdir_msg : ℕ → FilePath → Db → List String → List String
  unfolding select_id children
  readdir_msg junk path db entries =
      entries ++ order_by (children (into junk (select_id path db.files)) db.files)

  -- Into fuse's buffer, from an offset on, until the filler says that the buffer is full. What the
  -- filler is handed, each node with the offset of the next, is returned.
  fill : (String → ℕ → Bool) → List String → ℕ → List (String × ℕ)
  fill filler [] offset = []
  fill filler (n ∷ ns) offset =
      let rest = fill filler ns (suc offset) in
      (n, suc offset) ∷ (if filler n (suc offset) then [] else rest)

  unfoldable pub readdir_fuse : ℕ → (String → ℕ → Bool) → FilePath → ℕ → Db → List (String × ℕ)
  unfolding select_id children fill
  readdir_fuse junk filler path offset db =
      fill filler (drop offset (order_by (children (into junk (select_id path db.files)) db.files)))
        offset

module _ (paths : Paths) where
  unfoldable pub merge_entries : ℕ → FilePath → List String → Db → Db
  unfolding insert_or_ignore
  merge_entries parent_id parent_path [] db = db
  merge_entries parent_id parent_path (e ∷ es) db =
      merge_entries parent_id parent_path es
        (insert_or_ignore parent_id e (paths.join parent_path e) false db)

  -- `lockless_merge` of a DirChunk with its path and its entries.
  unfoldable pub merge : ℕ → FilePath → List String → Db → Db
  unfolding select_id merge_entries
  merge junk path entries db = merge_entries (into junk (select_id path db.files)) path entries db

unfoldable pub is_subscribed : Bool → FilePath → Db → Bool
unfolding select_subscribed
is_subscribed junk path db = into junk (select_subscribed path db.files)

-- `Database::checkout`. The last argument says whether `creat` makes the empty file.
unfoldable pub checkout : ℕ → Bool → FilePath → Bool → Db → Db
unfolding select_id select_subscribed set_subscribed insert_version
checkout junk junk_subscribed path created db = caught (
    (do
      file_id ← gets (λ db. into junk (select_id path db.files))
      subscribed ← gets (λ db. into junk_subscribed (select_subscribed path db.files))
      throw_if subscribed already_subscribed
      execute (λ db. record db { files = set_subscribed true file_id db.files })
      insert_version file_id (pos 0) (pos 0)
      throw_if (not created) os_error)
      db)

-- `Database::release`. The last argument says whether `unlink` removes the file.
unfoldable pub release : ℕ → Bool → FilePath → Bool → Db → Db
unfolding select_id select_subscribed set_subscribed delete_versions
release junk junk_subscribed path unlinked db = caught (
    (do
      file_id ← gets (λ db. into junk (select_id path db.files))
      subscribed ← gets (λ db. into junk_subscribed (select_subscribed path db.files))
      throw_if (not subscribed) not_subscribed
      execute (λ db. record db { files = set_subscribed false file_id db.files })
      execute (λ db. record db { version = delete_versions file_id db.version })
      throw_if (not unlinked) os_error)
      db)
