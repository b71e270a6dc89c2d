-- ===== src/FileMap.antt =====
-- backend/FileContext.h and FileContext.cpp: the open files of a mount. The vector of free handles is
-- kept with its back first. Between the calls of a mount the map is the only owner of a context, so
-- clearing a slot destroys it.
pub mod Handles
use openbookfs.Prelude.{
  ℤ, ℕ, zero, suc, Bool, true, false, if◌then◌else◌, List, [], ◌∷◌, Option, none, some, get_elem?,
  set, replicate,
}
use openbookfs.Database.{FilePath, Db}
use openbookfs.Database.Versions.{increment_version}

pub record FileContext : Type 0 where
  pub path : FilePath
  pub fd : ℤ
  pub changed : Bool

pub record FileMap : Type 0 where
  pub file_vec : List (Option FileContext)
  pub free_store : List ℕ

-- The handles that the constructor pushes, from 0 on.
unfoldable pub descending : ℕ → List ℕ
descending zero = []
descending (suc n) = n ∷ descending n

unfoldable pub make : ℕ → FileMap
unfolding descending
make size = record { file_vec = replicate size none; free_store = descending size }

-- `operator[]`, which is null out of range and where no file is open.
unfoldable pub fetch : ℕ → FileMap → Option FileContext
fetch i m = elim (get_elem? m.file_vec i) [ none ↦ none | some slot ↦ slot ]

-- `FileContext::create`
abbrev pub create_context : FilePath → ℤ → FileContext
create_context path os_fd = record { path = path; fd = os_fd; changed = false }

unfoldable pub take_handle : FilePath → ℤ → List ℕ → FileMap → Option (ℕ × FileMap)
take_handle path os_fd [] m = none
take_handle path os_fd (fd ∷ rest) m = some (
  fd,
  record { file_vec = set m.file_vec fd (some (create_context path os_fd)); free_store = rest },
)

-- `registerFile`, which throws where no handle is free.
unfoldable pub register_file : FilePath → ℤ → FileMap → Option (ℕ × FileMap)
unfolding take_handle
register_file path os_fd m = take_handle path os_fd m.free_store m

-- `unregisterFile` of a handle in range.
unfoldable pub unregister_file : ℕ → FileMap → FileMap
unregister_file fd m = record { file_vec = set m.file_vec fd none; free_store = fd ∷ m.free_store }

-- `mark`, through the pointer that the map and its user share.
unfoldable pub mark : ℕ → FileContext → FileMap → FileMap
mark fd c m = record m { file_vec = set m.file_vec fd (some (record c { changed = true })) }

-- `~FileContext`, what it does to the tables; the system's descriptor is closed.
unfoldable pub destroy : ℕ → Option FileContext → Db → Db
destroy junk none db = db
destroy junk (some c) db = if c.changed then increment_version junk c.path db else db
