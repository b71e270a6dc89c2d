-- ===== src/Fuse/Names.antt =====
-- backend/FuseContext.cpp: the operations on names and directories, and those that hand a call to the
-- system. The outcomes of the system calls are arguments, where an error is `none`.
use openbookfs.Prelude.{
  ℤ, pos, negsuc, ℕ, zero, suc, Bool, true, false, not, if◌then◌else◌, List, [], Option, none, some,
  String, str_eq, ◌/◌,
}
use openbookfs.Database.{FilePath, Paths}
use openbookfs.Database.Files.{mknod, unlink, readdir_fuse, is_subscribed, checkout, release}
use openbookfs.Database.Versions.{increment_version}
use openbookfs.FileMap.{FileContext, fetch, unregister_file, mark, destroy}
use openbookfs.Fuse.{
  Reply, done, thrown, failed, enoent, ebadf, einval, system_error, Mount, register,
}

-- `result_or_errno`
unfoldable pub result_or_errno : Option ℕ → Reply
result_or_errno none = failed system_error
result_or_errno (some n) = done n

-- The operations that only call the system on the path below the root.
unfoldable pub symlink : Option ℕ → Reply
unfolding result_or_errno
symlink called = result_or_errno called

unfoldable pub readlink : Option ℕ → Reply
unfolding result_or_errno
readlink called = result_or_errno called

unfoldable pub link : Option ℕ → Reply
unfolding result_or_errno
link called = result_or_errno called

unfoldable pub chmod : Option ℕ → Reply
unfolding result_or_errno
chmod called = result_or_errno called

unfoldable pub chown : Option ℕ → Reply
unfolding result_or_errno
chown called = result_or_errno called

unfoldable pub access : Option ℕ → Reply
unfolding result_or_errno
access called = result_or_errno called

unfoldable pub statfs : Option ℕ → Reply
unfolding result_or_errno
statfs called = result_or_errno called

unfoldable pub setxattr : Option ℕ → Reply
unfolding result_or_errno
setxattr called = result_or_errno called

unfoldable pub listxattr : Option ℕ → Reply
unfolding result_or_errno
listxattr called = result_or_errno called

unfoldable pub removexattr : Option ℕ → Reply
unfolding result_or_errno
removexattr called = result_or_errno called

-- a time in seconds and nanoseconds, and the one in seconds and microseconds for utimes
unfoldable pub to_timeval : ℤ × ℕ → ℤ × ℕ
to_timeval (sec, nsec) = (sec, nsec / 1000)

-- What `utimes` does is a function of the two times that it is given.
unfoldable pub utimens : (ℤ × ℕ → ℤ × ℕ → Option ℕ) → ℤ × ℕ → ℤ × ℕ → Reply
unfolding result_or_errno to_timeval
utimens utimes accessed modified =
    result_or_errno (utimes (to_timeval accessed) (to_timeval modified))

unfoldable pub truncate : ℕ → Option ℕ → FilePath → Mount → Reply × Mount
truncate junk none path s = (failed system_error, s)
truncate junk (some n) path s = (done n, record s { db = increment_version junk path s.db })

-- An operation on the descriptor of an open file.
on_file : ℕ → (FileContext → Reply) → Mount → Reply
on_file zero f s = failed ebadf
on_file (suc i) f s = elim (fetch (suc i) s.files) [ none ↦ failed ebadf | some file ↦ f file ]

-- What `ftruncate` does is a function of the descriptor.
unfoldable pub ftruncate : ℕ → (ℤ → Option ℕ) → Mount → Reply × Mount
ftruncate zero truncated s = (failed ebadf, s)
ftruncate (suc i) truncated s = elim (fetch (suc i) s.files) [
  | none ↦ (failed ebadf, s)
  | some file ↦ elim (truncated file.fd) [
    | none ↦ (failed system_error, s)
    | some n ↦ (done n, record s { files = mark (suc i) file s.files })
  ]
]

unfoldable pub fsync : ℕ → Bool → (ℤ → Option ℕ) → (ℤ → Option ℕ) → Mount → Reply
unfolding on_file result_or_errno
fsync fh datasync fdatasync synced s =
    on_file fh (λ file. result_or_errno (if datasync then fdatasync file.fd else synced file.fd)) s

unfoldable pub flush : Mount → Reply
flush s = done 0

unfoldable pub fgetattr : ℕ → (ℤ → Option ℕ) → Mount → Reply
unfolding on_file result_or_errno
fgetattr fh fstat s = on_file fh (λ file. result_or_errno (fstat file.fd)) s

-- `lock` gives `fcntl` the handle itself.
unfoldable pub lock : ℕ → (ℤ → Option ℕ) → Mount → Reply
unfolding on_file result_or_errno
lock fh fcntl s = on_file fh (λ file. result_or_errno (fcntl (pos fh))) s

-- What `getattr` fills in: what the system says, or an empty regular file.
pub data Attributes : Type 0 where
  of_system : ℕ → Attributes
  no_attributes : Attributes
  empty_file : Attributes

unfoldable pub getattr : Paths → Bool → FilePath → Option ℕ → FilePath → Mount → Reply × Attributes
getattr paths junk rel_dir (some stat) path s = (done 0, of_system stat)
getattr paths junk rel_dir none path s =
    if is_subscribed junk (paths.join rel_dir path) s.db
    then (failed system_error, no_attributes)
    else (done 0, empty_file)

-- `FuseContext::unlink` and `FuseContext::rmdir`, which do the same. `fs::remove_all` throws outside of the
-- try block; `Database::unlink` is inside of it.
unfoldable pub unlink_node : ℕ → Bool → Bool → FilePath → Mount → Reply × Mount
unlink_node junk parent_exists removed path s =
    if not parent_exists
    then (failed enoent, s)
    else (if removed then (done 0, record s { db = unlink junk path s.db }) else (thrown, s))

unfoldable pub rmdir : ℕ → Bool → Bool → FilePath → Mount → Reply × Mount
rmdir junk parent_exists removed path s =
    if not parent_exists
    then (failed enoent, s)
    else (if removed then (done 0, record s { db = unlink junk path s.db }) else (thrown, s))

-- The name is entered before the directory is made. `Database::mknod` catches its own exceptions.
unfoldable pub mkdir : Paths → Bool → Bool → FilePath → Mount → Reply × Mount
mkdir paths parent_exists made path s =
    if not parent_exists
    then (failed enoent, s)
    else (if made then done 0 else failed system_error, record s { db = mknod paths path s.db })

unfoldable pub opendir : FilePath → Mount → Reply × Option ℕ × Mount
unfolding register
opendir path s = register einval path (negsuc 0) s

-- What the filler is handed, unless the handle is bad.
unfoldable pub readdir :
    (List String → List String)
    → ℕ
    → (String → ℕ → Bool)
    → ℕ
    → FilePath
    → ℕ
    → Mount
    → Reply × List (String × ℕ)
readdir order_by junk filler zero path offset s =
    (done 0, readdir_fuse order_by junk filler path offset s.db)
readdir order_by junk filler (suc i) path offset s = elim (fetch (suc i) s.files) [
  | none ↦ (failed ebadf, [])
  | some file ↦ (done 0, readdir_fuse order_by junk filler path offset s.db)
]

unfoldable pub releasedir : ℕ → ℕ → Mount → Reply × Mount
releasedir junk zero s = (failed ebadf, s)
releasedir junk (suc i) s = (
  done 0,
  record {
    files = unregister_file (suc i) s.files;
    db = destroy junk (fetch (suc i) s.files) s.db;
  },
)

unfoldable pub fsyncdir : Mount → Reply
fsyncdir s = done 0

-- Onto a name that exists, and onto a new one.
unfoldable pub rename : Paths → ℕ → Bool → Option ℕ → FilePath → FilePath → Mount → Reply × Mount
rename paths junk target_exists none oldpath newpath s = (failed system_error, s)
rename paths junk true (some n) oldpath newpath s =
    (done n, record s { db = unlink junk oldpath (increment_version junk newpath s.db) })
rename paths junk false (some n) oldpath newpath s =
    (done n, record s { db = unlink junk oldpath (mknod paths newpath s.db) })

-- `getxattr`, with the hooks that check a file out and release it; `Backend::checkout` and
-- `Backend::release` are those of the database.
unfoldable pub getxattr :
    Paths → ℕ → Bool → FilePath → Bool → Option ℕ → FilePath → String → Mount → Reply × Mount
unfolding result_or_errno
getxattr paths junk junk_subscribed rel_dir system_ok called path key s =
    if str_eq key "obfs:checkout"
    then (
      done 0,
      record s { db = checkout junk junk_subscribed (paths.join rel_dir path) system_ok s.db },
    )
    else (if str_eq key "obfs:release"
        then (
          done 0,
          record s { db = release junk junk_subscribed (paths.join rel_dir path) system_ok s.db },
        )
        else (result_or_errno called, s))

unfoldable pub bmap : Mount → Reply
bmap s = failed einval

unfoldable pub ioctl : Mount → Reply
ioctl s = failed einval

unfoldable pub poll : Mount → Reply
poll s = failed einval
