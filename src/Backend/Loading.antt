-- ===== src/Backend/Loading.antt =====
-- backend/Backend.cpp, loadConfig and saveConfig, with getFamily and getNode of SocketListener.h. The entries
-- are read one after the other, and what is set before an exception stays set.
use openbookfs.Prelude.{
  ℤ, Bool, ◌||◌, ◌+◌, ◌-◌, if◌then◌else◌, ltb, leb, List, [], ◌∷◌, ◌++◌, map, Option, none, some,
  String, str_eq, length, replicate,
}
use openbookfs.Backend.Arguments.{Packing, put, mount_args}
use openbookfs.Backend.Config.{
  Yaml, Family, unspec, inet, inet6, other, MountPoint, Settings, Result, returned, thrown,
  undefined, and_then, set_display_name, set_data_dir, set_remote_socket, set_client_socket,
  set_max_connections,
}

abbrev pub family_of : String → Family
family_of t = if str_eq t "AF_INET" then inet else (if str_eq t "AF_INET6" then inet6 else unspec)

abbrev pub family_text : Family → String
family_text unspec = "AF_UNSPEC"
family_text inet = "AF_INET"
family_text inet6 = "AF_INET6"
family_text (other _) = "AF_UNSPEC"

abbrev pub node_of : String → String
node_of t = if str_eq t "any" then "" else t

abbrev pub node_text : String → String
node_text n = if str_eq n "" then "any" else n

abbrev pub reldir_of : String → String
reldir_of t = if str_eq t "/" || str_eq t "~" then "" else t

-- The end of the loop over the arguments of a mount point.
pub data Args : Type 0 where
  packed : Packing → Args
  unreadable overflow : Args

module _ {N : Type 0} (y : Yaml N) where
  -- An entry that may be missing, with its default, or an exception.
  abbrev pub read_text : String → String → (String → String) → N → Option String
  read_text key missing convert node = elim (y.at node key) [
    | none ↦ some missing
    | some n ↦ elim (y.text n) [ none ↦ none | some t ↦ some (convert t) ]
  ]

  abbrev pub read_family : N → Option Family
  read_family node = elim (y.at node "family") [
    | none ↦ some unspec
    | some n ↦ elim (y.text n) [ none ↦ none | some t ↦ some (family_of t) ]
  ]

  -- An entry of the document, if it is there.
  abbrev pub entry : String → (N → Settings → Result) → N → Settings → Result
  entry key load config s = elim (y.at config key) [ none ↦ returned s | some n ↦ load n s ]

  abbrev pub set_local_socket : ℤ → Settings → Result
  set_local_socket port s = returned (record s { local_service = y.decimal port })

  abbrev pub load_text : (String → Settings → Result) → N → Settings → Result
  load_text set node s = elim (y.text node) [ none ↦ thrown s | some t ↦ set t s ]

  abbrev pub load_local : N → Settings → Result
  load_local node s = elim (y.at node "service") [
    | none ↦ returned s
    | some n ↦ elim (y.text n) [
      | none ↦ thrown s
      | some _ ↦ elim (y.int n) [ none ↦ thrown s | some port ↦ set_local_socket port s ]
    ]
  ]

  abbrev pub load_remote : N → Settings → Result
  load_remote node s = elim (read_family node) [
    | none ↦ thrown s
    | some family ↦ elim (read_text "node" "" node_of node) [
      | none ↦ thrown s
      | some name ↦ elim (read_text "service" "" (λ t. t) node) [
        | none ↦ thrown s
        | some service ↦ set_remote_socket family name service s
      ]
    ]
  ]

  abbrev pub load_client : N → Settings → Result
  load_client node s = elim (read_family node) [
    | none ↦ thrown s
    | some family ↦ elim (read_text "node" "" node_of node) [
      | none ↦ thrown s
      | some name ↦ set_client_socket family name s
    ]
  ]

  abbrev pub load_max : N → Settings → Result
  load_max node s = elim (y.int node) [ none ↦ thrown s | some n ↦ set_max_connections n s ]

  -- The loop over the arguments, as in AddMountPoint, but each is read from a node before.
  abbrev pub load_args : List N → Packing → Args
  load_args [] p = packed p
  load_args (n ∷ ns) p = elim (y.bytes n) [
    | none ↦ unreadable
    | some arg ↦
        let rest = if leb 100 (length p.argv) then overflow else load_args ns (put arg p) in
        if ltb (256 - p.pwrite) (length arg + 1) then packed p else rest
  ]

  abbrev pub read_args : N → Args
  read_args node =
      let none_yet : Packing = record { buffer = replicate 256 0; argv = []; pwrite = 0 } in
      elim (y.at node "argv") [ none ↦ packed none_yet | some n ↦ load_args (y.items n) none_yet ]

  -- Backend::mount, whose exceptions are caught: the mount point is there, or nothing changes.
  abbrev pub mount : (MountPoint → Bool) → String → String → Packing → Settings → Result
  mount fuse path reldir p s =
      let m : MountPoint = record { mount = path; reldir = reldir; args = mount_args p } in
      returned (if fuse m then record s { mounts = s.mounts ++ m ∷ [] } else s)

  abbrev pub load_mount : (MountPoint → Bool) → N → Settings → Result
  load_mount fuse node s = elim (y.at node "mount") [
    | none ↦ returned s
    | some n ↦ elim (y.text n) [
      | none ↦ thrown s
      | some path ↦ elim (read_text "relDir" "" reldir_of node) [
        | none ↦ thrown s
        | some reldir ↦ elim (read_args node) [
          | unreadable ↦ thrown s
          | overflow ↦ undefined
          | packed p ↦ mount fuse path reldir p s
        ]
      ]
    ]
  ]

  unfoldable pub load_mounts : (MountPoint → Bool) → List N → Settings → Result
  load_mounts fuse [] s = returned s
  load_mounts fuse (n ∷ ns) s = and_then (load_mount fuse n s) (load_mounts fuse ns)

  -- Backend::loadConfig, on the document that is read.
  unfoldable pub load_config : (String → Bool) → (MountPoint → Bool) → N → Settings → Result
  load_config prepares fuse config s =
      and_then (entry "displayName" (load_text set_display_name) config s) λ s.
        and_then (entry "dataDir" (load_text (set_data_dir prepares)) config s) λ s.
          and_then (entry "localSocket" load_local config s) λ s.
            and_then (entry "remoteSocket" load_remote config s) λ s.
              and_then (entry "clientSocket" load_client config s) λ s.
                and_then (entry "maxConnections" load_max config s)
                  λ s. entry "mountPoints" (λ n. load_mounts fuse (y.items n)) config s

  abbrev pub save_mount : MountPoint → N
  save_mount m = y.mapping (
      ("mount", y.scalar m.mount)
      ∷ ("reldir", y.scalar m.reldir)
      ∷ ("argv", y.sequence (map y.bytes_scalar m.args))
      ∷ [])

  -- Backend::saveConfig, the document that is written.
  unfoldable pub save_config : Settings → N
  save_config s = y.mapping (
      ("displayName", y.scalar s.display_name)
      ∷ ("dataDir", y.scalar s.data_dir)
      ∷ ("localSocket", y.mapping (("service", y.scalar s.local_service) ∷ []))
      ∷ (
        "remoteSocket",
        y.mapping (
            ("family", y.scalar (family_text s.remote_family))
            ∷ ("node", y.scalar (node_text s.remote_node))
            ∷ ("service", y.scalar s.remote_service)
            ∷ []),
      )
      ∷ (
        "clientSocket",
        y.mapping (
            ("family", y.scalar (family_text s.client_family))
            ∷ ("node", y.scalar (node_text s.client_node))
            ∷ []),
      )
      ∷ ("maxConnections", y.scalar (y.decimal s.max_peers))
      ∷ ("mountPoints", y.sequence (map save_mount s.mounts))
      ∷ [])
