-- ===== src/Backend/Restoring.antt =====
-- backend/Backend.cpp: the configuration that saveConfig writes, read by loadConfig.
use openbookfs.Prelude.{
  ℤ, Bool, true, false, ◌+◌, ◌-◌, ◌≤◌, ◌≡◌, refl, sym, ap, ◌∙◌, inl, inr, if◌then◌else◌, ltb, leb,
  List, [], ◌∷◌, ◌++◌, map, Option, none, some, String, str_eq, eq_iff, length, replicate, ltb_ℤ,
  ◌+ℤ◌, ◌-ℤ◌, Bool-cases, append_assoc, append_nil,
}
use openbookfs.Database.Downloads.{Bytes}
use openbookfs.Backend.Arguments.{Packing, put, mount_args, pack_loop, pack, c_string}
use openbookfs.Backend.Packing.{fitting}
use openbookfs.Backend.Fitting.{mount_args-pack}
use openbookfs.Backend.Config.{
  Yaml, Family, MountPoint, Settings, Result, returned, and_then, set_remote_socket,
  set_client_socket, set_max_connections,
}
use openbookfs.Backend.Loading.{
  family_of, family_text, node_of, node_text, reldir_of, Args, packed, overflow, read_text,
  read_family, entry, load_text, load_local, load_remote, load_client, load_max, load_args,
  read_args, mount, load_mount, load_mounts, save_mount, set_local_socket,
}

abbrev pub lookup : {N : Type 0} → String → List (String × N) → Option N
lookup k [] = none
lookup k ((k', n) ∷ kvs) = let rest = lookup k kvs in if str_eq k' k then some n else rest

-- What is emitted is what is read.
pub record IsFaithful {N : Type 0} (y : Yaml N) : Type 0 where
  pub at-mapping : (kvs : List (String × N)) (k : String) → y.at (y.mapping kvs) k ≡ lookup k kvs
  pub items-sequence : (ns : List N) → y.items (y.sequence ns) ≡ ns
  pub text-scalar : (t : String) → y.text (y.scalar t) ≡ some t
  pub bytes-bytes_scalar : (b : Bytes) → y.bytes (y.bytes_scalar b) ≡ some b

abbrev pub AllFit : List MountPoint → Type 0
AllFit [] = Unit
AllFit (m ∷ ms) = (length (fitting 256 m.args) ≤ 100) × AllFit ms

-- A mount point after a restart: the key of its directory is written and read under two names.
abbrev pub restored_mount : MountPoint → MountPoint
restored_mount m = record m { reldir = ""; args = map c_string (fitting 256 m.args) }

-- The settings of `s` after a restart, with the pools of a backend that starts from `t`.
abbrev pub restored : Settings → Settings → Settings
restored s t = record s {
  remote_family = family_of (family_text s.remote_family);
  client_family = family_of (family_text s.client_family);
  capacity = if ltb_ℤ t.capacity s.max_peers then s.max_peers else t.capacity;
  created =
      if ltb_ℤ t.capacity s.max_peers then t.created +ℤ (s.max_peers -ℤ t.capacity) else t.created;
  mounts = t.mounts ++ map restored_mount s.mounts;
}

pub node_of-node_text : (n : String) → str_eq n "any" ≡ false → node_of (node_text n) ≡ n
node_of-node_text n e = elim (Bool-cases (str_eq n "")) [
  | inl f ↦ rw (f) (sym ((eq_iff n "").0 f))
  | inr f ↦ rw (f) (rw (e) refl)
]

abbrev args_of : Option Packing → Args
args_of none = overflow
args_of (some p) = packed p

module _ {N : Type 0} (y : Yaml N) (h : IsFaithful y) where
  load_args-pack_loop :
      (args : List Bytes) (p : Packing)
      → load_args y (map y.bytes_scalar args) p ≡ args_of (pack_loop args p)
  unfolding pack_loop
  load_args-pack_loop [] p = refl
  load_args-pack_loop (a ∷ args) p =
      rw (h.bytes-bytes_scalar a) (elim (Bool-cases (ltb (256 - p.pwrite) (length a + 1))) [
        | inl e ↦ rw (e) refl
        | inr e ↦ elim (Bool-cases (leb 100 (length p.argv))) [
          | inl f ↦ rw (e) (rw (f) refl)
          | inr f ↦ rw (e) (rw (f) (load_args-pack_loop args (put a p)))
        ]
      ])

  pub read_text-scalar :
      (key missing t : String) (convert : String → String) (node : N)
      → y.at node key ≡ some (y.scalar t)
      → read_text y key missing convert node ≡ some (convert t)
  read_text-scalar key missing t convert node e = rw (e, read_text) (rw (h.text-scalar t) refl)

  pub read_family-scalar :
      (t : String) (node : N)
      → y.at node "family" ≡ some (y.scalar t)
      → read_family y node ≡ some (family_of t)
  read_family-scalar t node e = rw (e, read_family) (rw (h.text-scalar t) refl)

  pub entry_lem :
      (key : String) (load : N → Settings → Result) (config n : N) (s : Settings)
      → y.at config key ≡ some n
      → entry y key load config s ≡ load n s
  entry_lem key load config n s e = rw (e, entry) refl

  pub load_text-scalar :
      (set : String → Settings → Result) (t : String) (s : Settings)
      → load_text y set (y.scalar t) s ≡ set t s
  load_text-scalar set t s = rw (h.text-scalar t, load_text) refl

  read_text-none :
      (key missing : String) (convert : String → String) (node : N)
      → y.at node key ≡ none
      → read_text y key missing convert node ≡ some missing
  read_text-none key missing convert node e = rw (e, read_text) refl

  read_args-sequence :
      (args : List Bytes) (node : N)
      → y.at node "argv" ≡ some (y.sequence (map y.bytes_scalar args))
      → read_args y node ≡ args_of (pack args)
  unfolding pack
  read_args-sequence args node e =
      rw (e, read_args)
        (rw (h.items-sequence (map y.bytes_scalar args))
          (load_args-pack_loop args (record { buffer = replicate 256 0; argv = []; pwrite = 0 })))

  load_mount_lem :
      (fuse : MountPoint → Bool) (path reldir : String) (p : Packing) (node n : N) (s : Settings)
      → y.at node "mount" ≡ some n
      → y.text n ≡ some path
      → read_text y "relDir" "" reldir_of node ≡ some reldir
      → read_args y node ≡ packed p
      → load_mount y fuse node s ≡ mount y fuse path reldir p s
  load_mount_lem fuse path reldir p node n s e f g k =
      rw (e, load_mount) (rw (f) (rw (g) (rw (k) refl)))

  mount_lem :
      (fuse : MountPoint → Bool) (path reldir : String) (p : Packing) (s : Settings)
      → ((n : MountPoint) → fuse n ≡ true)
      → mount y fuse path reldir p s
        ≡ returned (record s {
          mounts = s.mounts ++ record { mount = path; reldir = reldir; args = mount_args p } ∷ [];
        })
  mount_lem fuse path reldir p s f =
      rw (f (record { mount = path; reldir = reldir; args = mount_args p }), mount) refl

  load_mount-save_mount :
      (fuse : MountPoint → Bool) (m : MountPoint) (s : Settings)
      → ((n : MountPoint) → fuse n ≡ true)
      → length (fitting 256 m.args) ≤ 100
      → load_mount y fuse (save_mount y m) s
        ≡ returned (record s { mounts = s.mounts ++ restored_mount m ∷ [] })
  load_mount-save_mount fuse m s f le =
      let node = save_mount y m in
      let kvs : List (String × N) =
        ("mount", y.scalar m.mount)
        ∷ ("reldir", y.scalar m.reldir)
        ∷ ("argv", y.sequence (map y.bytes_scalar m.args))
        ∷ [] in
      let (p, e, got) = mount_args-pack m.args le in
      load_mount_lem fuse m.mount "" p node (y.scalar m.mount) s (h.at-mapping kvs "mount")
        (h.text-scalar m.mount)
        (read_text-none "relDir" "" reldir_of node (h.at-mapping kvs "relDir"))
        (read_args-sequence m.args node (h.at-mapping kvs "argv") ∙ ap args_of e)
      ∙ mount_lem fuse m.mount "" p s f
      ∙ ap
          (λ (l : List Bytes). returned (record s {
            mounts = s.mounts ++ record { mount = m.mount; reldir = ""; args = l } ∷ [];
          }))
          got

  pub load_mounts-save_mount :
      (fuse : MountPoint → Bool) (ms : List MountPoint) (s : Settings)
      → ((n : MountPoint) → fuse n ≡ true)
      → AllFit ms
      → load_mounts y fuse (map (save_mount y) ms) s
        ≡ returned (record s { mounts = s.mounts ++ map restored_mount ms })
  unfolding load_mounts
  load_mounts-save_mount fuse [] s f fit =
      ap (λ (l : List MountPoint). returned (record s { mounts = l })) (sym (append_nil s.mounts))
  load_mounts-save_mount fuse (m ∷ ms) s f (le, fit) =
      let next : Settings = record s { mounts = s.mounts ++ restored_mount m ∷ [] } in
      ap (λ (r : Result). and_then r (load_mounts y fuse (map (save_mount y) ms)))
        (load_mount-save_mount fuse m s f le)
      ∙ load_mounts-save_mount fuse ms next f fit
      ∙ ap (λ (l : List MountPoint). returned (record s { mounts = l }))
          (append_assoc s.mounts (restored_mount m ∷ []) (map restored_mount ms))

  pub load_local-service :
      (port : ℤ) (node : N) (s : Settings)
      → y.at node "service" ≡ some (y.scalar (y.decimal port))
      → y.int (y.scalar (y.decimal port)) ≡ some port
      → load_local y node s ≡ set_local_socket y port s
  load_local-service port node s e i =
      rw (e, load_local) (rw (h.text-scalar (y.decimal port)) (rw (i) refl))

  pub load_max-decimal :
      (n : ℤ) (s : Settings)
      → y.int (y.scalar (y.decimal n)) ≡ some n
      → load_max y (y.scalar (y.decimal n)) s ≡ set_max_connections n s
  load_max-decimal n s i = rw (i, load_max) refl

  pub load_remote_lem :
      (family : Family) (name service : String) (node : N) (s : Settings)
      → read_family y node ≡ some family
      → read_text y "node" "" node_of node ≡ some name
      → read_text y "service" "" (λ t. t) node ≡ some service
      → load_remote y node s ≡ set_remote_socket family name service s
  load_remote_lem family name service node s e f g = rw (e, load_remote) (rw (f) (rw (g) refl))

  pub load_client_lem :
      (family : Family) (name : String) (node : N) (s : Settings)
      → read_family y node ≡ some family
      → read_text y "node" "" node_of node ≡ some name
      → load_client y node s ≡ set_client_socket family name s
  load_client_lem family name node s e f = rw (e, load_client) (rw (f) refl)
