-- ===== src/Fuse.antt =====
-- backend/FuseContext.cpp: the operations that work on an open file. The outcomes of the system calls
-- are arguments, where an error is `none`.
pub mod Session
pub mod Names
pub mod Moving
use openbookfs.Prelude.{
  ℤ, ℕ, zero, suc, Bool, true, false, not, if◌then◌else◌, List, [], ◌∷◌, Option, none, some,
}
use openbookfs.Database.{FilePath, Paths, Db}
use openbookfs.Database.Files.{mknod}
use openbookfs.Database.Versions.{increment_version}
use openbookfs.FileMap.{FileContext, FileMap, fetch, register_file, unregister_file, mark, destroy}

-- The negative results.
pub data Errno : Type 0 where
  enoent enomem eio ebadf einval system_error : Errno

pub data Reply : Type 0 where
  done : ℕ → Reply
  failed : Errno → Reply
  -- an exception leaves the operation
  thrown : Reply

-- The open files of the mount, and the tables of the backend.
pub record Mount : Type 0 where
  pub files : FileMap
  pub db : Db

-- `FuseContext::mknod`; `special` says that the mode names a device.
pub mknod_node : Paths → Bool → Bool → Bool → FilePath → Mount → Reply × Mount
mknod_node paths special parent_is_directory made path s =
    if special
    then (failed einval, s)
    else if not parent_is_directory
    then (failed enoent, s)
    else if not made
    then (failed system_error, s)
    else (done 0, record s { db = mknod paths path s.db })

-- `registerFile` under a try, the reply and the handle that `fi->fh` gets: -1 is `none`.
unfoldable pub register : Errno → FilePath → ℤ → Mount → Reply × Option ℕ × Mount
register error path os_fd s = elim (register_file path os_fd s.files) [
  | none ↦ (failed error, none, s)
  | some (fd, files) ↦ (done 0, some fd, record s { files = files })
]

-- `FuseContext::create`
unfoldable pub create : Paths → Bool → Option ℤ → FilePath → Mount → Reply × Option ℕ × Mount
unfolding register
create paths parent_is_directory creat path s =
    if not parent_is_directory then (failed enoent, none, s) else elim creat [
      | none ↦ (failed system_error, none, s)
      | some os_fd ↦ register eio path os_fd (record s { db = mknod paths path s.db })
    ]

-- `FuseContext::open`. `fi->flags | O_CREAT` is never zero, so a missing file is created.
unfoldable pub open_file :
    Paths → Bool → Bool → Bool → Option ℤ → Option ℤ → FilePath → Mount → Reply × Option ℕ × Mount
unfolding register
open_file paths parent_exists parent_is_directory exists creat opened path s =
    if not parent_exists
    then (failed enoent, none, s)
    else if not exists
    then create paths parent_is_directory creat path s
    else elim opened [
      | none ↦ (failed system_error, none, s)
      | some os_fd ↦ register enomem path os_fd s
    ]

reply_of : Option ℕ → Reply
reply_of none = failed system_error
reply_of (some n) = done n

-- `FuseContext::read`, with what `pread` and `open` do. A handle 0 is taken for no handle.
unfoldable pub read : ℕ → Option ℕ → Bool → Mount → Reply
unfolding reply_of
read zero pread opened s = if opened then reply_of pread else failed system_error
read (suc i) pread opened s = elim (fetch (suc i) s.files) [
  | none ↦ failed ebadf
  | some _ ↦ reply_of pread
]

-- `FuseContext::write`
unfoldable pub write : ℕ → ℕ → Option ℕ → Bool → FilePath → Mount → Reply × Mount
write junk zero none opened path s = (failed system_error, s)
write junk zero (some n) opened path s =
    if opened
    then (done n, record s { db = increment_version junk path s.db })
    else (failed system_error, s)
write junk (suc i) pwrite opened path s = elim (fetch (suc i) s.files) [
  | none ↦ (failed ebadf, s)
  | some file ↦ elim pwrite [
    | none ↦ (failed system_error, s)
    | some n ↦ (done n, record s { files = mark (suc i) file s.files })
  ]
]

-- `FuseContext::release`; the context is destroyed with the map's reference.
unfoldable pub release : ℕ → ℕ → Mount → Reply × Mount
release junk zero s = (failed ebadf, s)
release junk (suc i) s = (
  done 0,
  record {
    files = unregister_file (suc i) s.files;
    db = destroy junk (fetch (suc i) s.files) s.db;
  },
)
