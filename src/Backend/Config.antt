-- ===== src/Backend/Config.antt =====
-- backend/Backend.cpp, the settings of a backend and its configuration file: the setters, loadConfig and
-- saveConfig. The YAML library is a parameter, and so are the outcomes of `fuse_mount` and of what
-- setDataDir does to the disk.
use openbookfs.Prelude.{ℤ, ltb_ℤ, Bool, if◌then◌else◌, ◌+ℤ◌, ◌-ℤ◌, List, Option, String}
use openbookfs.Database.Downloads.{Bytes}

-- What the code calls of the library: it emits mappings, sequences and texts, and reads nodes. A
-- conversion without a result throws.
pub record Yaml (Node : Type 0) : Type 0 where
  pub mapping : List (String × Node) → Node
  pub sequence : List Node → Node
  pub scalar : String → Node
  pub bytes_scalar : Bytes → Node
  pub at : Node → String → Option Node
  pub items : Node → List Node
  pub text : Node → Option String
  pub bytes : Node → Option Bytes
  pub int : Node → Option ℤ
  pub decimal : ℤ → String

pub data Family : Type 0 where
  unspec inet inet6 : Family
  other : ℤ → Family

pub record MountPoint : Type 0 where
  pub mount : String
  pub reldir : String
  pub args : List Bytes

-- `capacity` is that of the two pools, `created` counts the connections that are made for them.
pub record Settings : Type 0 where
  pub display_name : String
  pub data_dir : String
  pub local_service : String
  pub remote_family : Family
  pub remote_node : String
  pub remote_service : String
  pub client_family : Family
  pub client_node : String
  pub max_peers : ℤ
  pub capacity : ℤ
  pub created : ℤ
  pub mounts : List MountPoint

-- The end of a method: it returns, it throws, or it has written outside an array.
pub data Result : Type 0 where
  returned thrown : Settings → Result
  undefined : Result

abbrev pub and_then : Result → (Settings → Result) → Result
and_then (returned s) f = f s
and_then (thrown s) f = thrown s
and_then undefined f = undefined

abbrev pub set_display_name : String → Settings → Result
set_display_name name s = returned (record s { display_name = name })

-- The directory is prepared, with its keys, or an exception is thrown.
abbrev pub set_data_dir : (String → Bool) → String → Settings → Result
set_data_dir prepares dir s =
    let s = record s { data_dir = dir } in if prepares dir then returned s else thrown s

abbrev pub set_remote_socket : Family → String → String → Settings → Result
set_remote_socket family node service s =
    returned (record s { remote_family = family; remote_node = node; remote_service = service })

abbrev pub set_client_socket : Family → String → Settings → Result
set_client_socket family node s = returned (record s { client_family = family; client_node = node })

abbrev pub set_max_connections : ℤ → Settings → Result
set_max_connections n s = returned (record s {
  max_peers = n;
  capacity = if ltb_ℤ s.capacity n then n else s.capacity;
  created = if ltb_ℤ s.capacity n then s.created +ℤ (n -ℤ s.capacity) else s.created;
})
