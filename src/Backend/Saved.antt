-- ===== src/Backend/Saved.antt =====
-- backend/Backend.cpp: the settings of a backend that has loaded the configuration that another has saved.
use openbookfs.Prelude.{
  ℤ, Bool, true, false, ◌≡◌, refl, sym, ap, ◌∙◌, if◌then◌else◌, List, [], ◌∷◌, ◌++◌, map, some,
  String, str_eq, ltb_ℤ, ◌+ℤ◌, ◌-ℤ◌,
}
use openbookfs.Backend.Config.{
  Yaml, MountPoint, Settings, Result, returned, and_then, set_display_name, set_data_dir,
}
use openbookfs.Backend.Loading.{
  family_of, family_text, node_of, node_text, entry, load_text, load_local, load_remote,
  load_client, load_max, load_mounts, load_config, save_mount, save_config,
}
use openbookfs.Backend.Restoring.{
  IsFaithful, AllFit, restored, restored_mount, node_of-node_text, read_text-scalar,
  read_family-scalar, entry_lem, load_text-scalar, load_mounts-save_mount, load_local-service,
  load_max-decimal, load_remote_lem, load_client_lem,
}

then_lem : (r : Result) (s : Settings) (f : Settings → Result) → r ≡ returned s → and_then r f ≡ f s
then_lem r s f e = ap (λ (q : Result). and_then q f) e

set_data_dir_lem :
    (prepares : String → Bool) (dir : String) (s : Settings)
    → prepares dir ≡ true
    → set_data_dir prepares dir s ≡ returned (record s { data_dir = dir })
set_data_dir_lem prepares dir s e = rw (e, set_data_dir) refl

-- The settings after each entry.
module _ (s t : Settings) where
  abbrev after_local : String → Settings
  after_local service = record t {
    display_name = s.display_name;
    data_dir = s.data_dir;
    local_service = service;
  }

  abbrev after_remote : String → Settings → Settings
  after_remote name u = record u {
    remote_family = family_of (family_text s.remote_family);
    remote_node = name;
    remote_service = s.remote_service;
  }

  abbrev after_client : String → Settings → Settings
  after_client name u = record u {
    client_family = family_of (family_text s.client_family);
    client_node = name;
  }

  abbrev after_max : Settings → Settings
  after_max u = record u {
    max_peers = s.max_peers;
    capacity = if ltb_ℤ u.capacity s.max_peers then s.max_peers else u.capacity;
    created =
        if ltb_ℤ u.capacity s.max_peers
        then u.created +ℤ (s.max_peers -ℤ u.capacity)
        else u.created;
  }

module _ {N : Type 0} (y : Yaml N) (h : IsFaithful y) (s : Settings) where
  abbrev local : List (String × N)
  local = ("service", y.scalar s.local_service) ∷ []

  abbrev remote : List (String × N)
  remote =
      ("family", y.scalar (family_text s.remote_family))
      ∷ ("node", y.scalar (node_text s.remote_node))
      ∷ ("service", y.scalar s.remote_service)
      ∷ []

  abbrev client : List (String × N)
  client =
      ("family", y.scalar (family_text s.client_family))
      ∷ ("node", y.scalar (node_text s.client_node))
      ∷ []

  abbrev entries : List (String × N)
  entries =
      ("displayName", y.scalar s.display_name)
      ∷ ("dataDir", y.scalar s.data_dir)
      ∷ ("localSocket", y.mapping local)
      ∷ ("remoteSocket", y.mapping remote)
      ∷ ("clientSocket", y.mapping client)
      ∷ ("maxConnections", y.scalar (y.decimal s.max_peers))
      ∷ ("mountPoints", y.sequence (map (save_mount y) s.mounts))
      ∷ []

  entry_data_dir :
      (prepares : String → Bool) (t : Settings)
      → prepares s.data_dir ≡ true
      → entry y "dataDir" (load_text y (set_data_dir prepares)) (y.mapping entries) t
        ≡ returned (record t { data_dir = s.data_dir })
  entry_data_dir prepares t dir =
      entry_lem y h "dataDir" (load_text y (set_data_dir prepares)) (y.mapping entries)
        (y.scalar s.data_dir) t (h.at-mapping entries "dataDir")
      ∙ load_text-scalar y h (set_data_dir prepares) s.data_dir t
      ∙ set_data_dir_lem prepares s.data_dir t dir

  entry_local :
      (port : ℤ) (t : Settings)
      → s.local_service ≡ y.decimal port
      → y.int (y.scalar (y.decimal port)) ≡ some port
      → entry y "localSocket" (load_local y) (y.mapping entries) t
        ≡ returned (record t { local_service = y.decimal port })
  entry_local port t same int_port =
      entry_lem y h "localSocket" (load_local y) (y.mapping entries) (y.mapping local) t
        (h.at-mapping entries "localSocket")
      ∙ load_local-service y h port (y.mapping local) t
          (h.at-mapping local "service" ∙ ap (λ (x : String). some (y.scalar x)) same) int_port

  entry_remote :
      (t : Settings)
      → entry y "remoteSocket" (load_remote y) (y.mapping entries) t
        ≡ returned (after_remote s t (node_of (node_text s.remote_node)) t)
  entry_remote t =
      entry_lem y h "remoteSocket" (load_remote y) (y.mapping entries) (y.mapping remote) t
        (h.at-mapping entries "remoteSocket")
      ∙ load_remote_lem y h (family_of (family_text s.remote_family))
          (node_of (node_text s.remote_node)) s.remote_service (y.mapping remote) t
          (read_family-scalar y h (family_text s.remote_family) (y.mapping remote)
            (h.at-mapping remote "family"))
          (read_text-scalar y h "node" "" (node_text s.remote_node) node_of (y.mapping remote)
            (h.at-mapping remote "node"))
          (read_text-scalar y h "service" "" s.remote_service (λ x. x) (y.mapping remote)
            (h.at-mapping remote "service"))

  entry_client :
      (t : Settings)
      → entry y "clientSocket" (load_client y) (y.mapping entries) t
        ≡ returned (after_client s t (node_of (node_text s.client_node)) t)
  entry_client t =
      entry_lem y h "clientSocket" (load_client y) (y.mapping entries) (y.mapping client) t
        (h.at-mapping entries "clientSocket")
      ∙ load_client_lem y h (family_of (family_text s.client_family))
          (node_of (node_text s.client_node)) (y.mapping client) t
          (read_family-scalar y h (family_text s.client_family) (y.mapping client)
            (h.at-mapping client "family"))
          (read_text-scalar y h "node" "" (node_text s.client_node) node_of (y.mapping client)
            (h.at-mapping client "node"))

  entry_max :
      (t : Settings)
      → y.int (y.scalar (y.decimal s.max_peers)) ≡ some s.max_peers
      → entry y "maxConnections" (load_max y) (y.mapping entries) t ≡ returned (after_max s t t)
  entry_max t int_max =
      entry_lem y h "maxConnections" (load_max y) (y.mapping entries)
        (y.scalar (y.decimal s.max_peers)) t (h.at-mapping entries "maxConnections")
      ∙ load_max-decimal y h s.max_peers t int_max

  entry_mounts :
      (fuse : MountPoint → Bool) (t : Settings)
      → ((m : MountPoint) → fuse m ≡ true)
      → AllFit s.mounts
      → entry y "mountPoints" (λ (n : N). load_mounts y fuse (y.items n)) (y.mapping entries) t
        ≡ returned (record t { mounts = t.mounts ++ map restored_mount s.mounts })
  entry_mounts fuse t mounted fit =
      entry_lem y h "mountPoints" (λ (n : N). load_mounts y fuse (y.items n)) (y.mapping entries)
        (y.sequence (map (save_mount y) s.mounts)) t (h.at-mapping entries "mountPoints")
      ∙ ap (λ (ns : List N). load_mounts y fuse ns t)
          (h.items-sequence (map (save_mount y) s.mounts))
      ∙ load_mounts-save_mount y h fuse s.mounts t mounted fit

  -- A backend that loads the configuration that another has saved has its settings, if the port and the number of
  -- connections are read as they are printed, no node is called "any", the data directory is prepared, every
  -- `fuse_mount` succeeds, and at most 100 arguments of a mount point fit into its buffer. A family that is not
  -- AF_INET or AF_INET6 becomes AF_UNSPEC, a mount point keeps the arguments that fit, and it loses its
  -- relative directory.
  pub load_config-save_config :
      (prepares : String → Bool) (fuse : MountPoint → Bool) (port : ℤ) (t : Settings)
      → s.local_service ≡ y.decimal port
      → y.int (y.scalar (y.decimal port)) ≡ some port
      → y.int (y.scalar (y.decimal s.max_peers)) ≡ some s.max_peers
      → str_eq s.remote_node "any" ≡ false
      → str_eq s.client_node "any" ≡ false
      → prepares s.data_dir ≡ true
      → ((m : MountPoint) → fuse m ≡ true)
      → AllFit s.mounts
      → load_config y prepares fuse (save_config y s) t ≡ returned (restored s t)
  unfolding load_config save_config
  load_config-save_config prepares fuse port t same int_port int_max far near dir mounted fit =
      let config = y.mapping entries in
      let s1 : Settings = record t { display_name = s.display_name } in
      let s2 : Settings = record s1 { data_dir = s.data_dir } in
      let s3 : Settings = after_local s t (y.decimal port) in
      let s4 : Settings = after_remote s t (node_of (node_text s.remote_node)) s3 in
      let s5 : Settings = after_client s t (node_of (node_text s.client_node)) s4 in
      let k7 = entry y "mountPoints" (λ (n : N). load_mounts y fuse (y.items n)) config in
      let k6 = λ (u : Settings). and_then (entry y "maxConnections" (load_max y) config u) k7 in
      let k5 = λ (u : Settings). and_then (entry y "clientSocket" (load_client y) config u) k6 in
      let k4 = λ (u : Settings). and_then (entry y "remoteSocket" (load_remote y) config u) k5 in
      let k3 = λ (u : Settings). and_then (entry y "localSocket" (load_local y) config u) k4 in
      let k2 = λ (u : Settings).
        and_then (entry y "dataDir" (load_text y (set_data_dir prepares)) config u) k3 in
      let out = λ (l r c : String).
        returned (record (restored s t) { local_service = l; remote_node = r; client_node = c }) in
      then_lem (entry y "displayName" (load_text y set_display_name) config t) s1 k2 (
        entry_lem y h "displayName" (load_text y set_display_name) config (y.scalar s.display_name)
          t (h.at-mapping entries "displayName")
        ∙ load_text-scalar y h set_display_name s.display_name t)
      ∙ ap (λ (q : Result). and_then q k3) (entry_data_dir prepares s1 dir)
      ∙ ap (λ (q : Result). and_then q k4) (entry_local port s2 same int_port)
      ∙ ap (λ (q : Result). and_then q k5) (entry_remote s3)
      ∙ ap (λ (q : Result). and_then q k6) (entry_client s4)
      ∙ ap (λ (q : Result). and_then q k7) (entry_max s5 int_max)
      ∙ entry_mounts fuse (after_max s t s5) mounted fit
      ∙ ap
          (λ (l : String).
            out l (node_of (node_text s.remote_node)) (node_of (node_text s.client_node)))
          (sym same)
      ∙ ap (λ (r : String). out s.local_service r (node_of (node_text s.client_node)))
          (node_of-node_text s.remote_node far)
      ∙ ap (λ (c : String). out s.local_service s.remote_node c)
          (node_of-node_text s.client_node near)
