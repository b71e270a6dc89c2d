-- ===== src/MessageHandler/Announced.antt =====
-- What an announcement of a file, `NodeInfo`, leads to.
use openbookfs.Prelude.{
  ℕ, ℤ, pos, ◌≤ℤ◌, ◌<ℤ◌, String, ◌≡◌, refl, sym, subst, ◌∙◌, Bool, true, false, [], ◌∷◌, Option,
  none, some, length, arith, inl, inr, Bool-cases,
}
use openbookfs.VersionVector.{VersionVector, assign, get, less, equal}
use openbookfs.VersionVector.Pointwise.{less_iff, equal_iff}
use openbookfs.VersionVector.Sorted.{IsMap, assign-IsMap}
use openbookfs.Database.{Paths}
use openbookfs.Database.Files.{select_id, is_subscribed}
use openbookfs.Database.Versions.{get_version, assimilate_keys}
use openbookfs.Database.Versions.Counting.{assimilate_keys_lem}
use openbookfs.Database.Downloads.{Bytes, Store, select_download, download_version}
use openbookfs.Database.Downloads.Receiving.{Receiving}
use openbookfs.Database.Downloads.Starting.{add_download-new}
use openbookfs.Backend.{PeerMap}
use openbookfs.MessageHandler.{index, map_entries, ensure_own, map_version, read_version}
use openbookfs.MessageHandler.Files.{
  NodeInfo, Handled, relative_path, register_newer, handle_node_info,
}

map_entries-IsMap :
    (v v_out : VersionVector) (m : PeerMap) → IsMap v_out → IsMap (map_entries v v_out m).0
unfolding map_entries
map_entries-IsMap [] v_out m s = s
map_entries-IsMap ((k, x) ∷ v) v_out m s =
    map_entries-IsMap v (assign (index k m).0 x v_out) (index k m).1
      (assign-IsMap (index k m).0 x v_out s)

ensure_own-IsMap : (v : VersionVector) → IsMap v → IsMap (ensure_own v)
unfolding ensure_own
ensure_own-IsMap v s = ground (arith, assign-IsMap (pos 0) (pos 0) v s)

pub map_version-IsMap : (v : VersionVector) (m : PeerMap) → IsMap (map_version v [] m).0
unfolding map_version
map_version-IsMap v m = ensure_own-IsMap (map_entries v [] m).0 (map_entries-IsMap v [] m tt)

less_of_equal :
    (a b c : VersionVector) → ((q : ℤ) → get a q ≡ get b q) → less a c ≡ true → less b c ≡ true
less_of_equal a b c e h =
    let (below, (q, strictly)) = (less_iff a c).0 h in
    (less_iff b c).1 (
      (λ k. subst (λ x. x ≤ℤ get c k) (e k) (below k)),
      (q, subst (λ x. x <ℤ get c q) (e q) strictly),
    )

less-equal : (a b c : VersionVector) → equal a b ≡ true → less b c ≡ less a c
less-equal a b c h =
    let same = (equal_iff a b).0 h in
    elim (Bool-cases (less a c)) [
      | inl holds ↦ less_of_equal a b c same holds ∙ sym holds
      | inr fails ↦ elim (Bool-cases (less b c)) [
        | inl other ↦
            absurd (both_values (sym fails ∙ less_of_equal b a c (λ q. sym (same q)) other))
        | inr fails_too ↦ fails_too ∙ sym fails
      ]
    ]
  where
    both_values : ¬ (false ≡ true)
    both_values e = cc

-- The vector of an announcement, with the numbers of this machine.
abbrev pub announced : NodeInfo → Handled → VersionVector
announced msg h = (map_version (read_version msg.version []) [] h.peer_map).0

less-assimilate_keys :
    (junk id : ℕ) (paths : Paths) (msg : NodeInfo) (h : Handled)
    → select_id (relative_path paths msg) h.store.db.files ≡ some id
    → let path = relative_path paths msg in
      let v = announced msg h in
      less (get_version junk path (assimilate_keys junk path v h.store.db) []) v
      ≡ less (get_version junk path h.store.db []) v
less-assimilate_keys junk id paths msg h known =
    let path = relative_path paths msg in
    let v = announced msg h in
    less-equal (get_version junk path h.store.db [])
      (get_version junk path (assimilate_keys junk path v h.store.db) []) v
      (assimilate_keys_lem junk id path v h.store.db known).1

-- A newer version of a file that is subscribed here, and that is not being downloaded from the peer,
-- is requested with the version that was announced, and the store is ready to receive it.
pub node_info_newer :
    (junk id peer_id : ℕ) (junk_subscribed : Bool) (paths : Paths) (temp : String) (msg : NodeInfo)
    (source : Bytes) (h : Handled)
    → select_id (relative_path paths msg) h.store.db.files ≡ some id
    → is_subscribed junk_subscribed (relative_path paths msg) h.store.db ≡ true
    → msg.size ≡ pos (length source)
    → select_download (relative_path paths msg) (pos peer_id) h.store.db.downloads ≡ none
    → download_version (relative_path paths msg) (pos peer_id) h.store.db.downloads_v [] ≡ []
    → less (get_version junk (relative_path paths msg) h.store.db []) (announced msg h) ≡ true
    → let path = relative_path paths msg in
      let v = announced msg h in
      let (request, after) =
        handle_node_info junk junk_subscribed paths (some temp) peer_id msg h in
      (request ≡ some (record { path = path; tx = pos 0; offset = pos 0; version = v }))
      × Receiving source path (pos peer_id) (pos 0) temp v 0 after.store
      × (after.store.disk.root ≡ h.store.disk.root)
unfolding handle_node_info register_newer assimilate_keys
node_info_newer junk id peer_id junk_subscribed paths temp msg source h known subscribed size fresh
      none_stored newer =
    let path = relative_path paths msg in
    let v = announced msg h in
    let s : Store = record h.store { db = assimilate_keys junk path v h.store.db } in
    let (ready, same_root, _, _) =
      add_download-new path (pos peer_id) temp source v s fresh none_stored
        (map_version-IsMap (read_version msg.version []) h.peer_map) in
    rw
      (
        subscribed,
        handle_node_info,
        less-assimilate_keys junk id paths msg h known,
        newer,
        register_newer,
        size,
      )
      ((refl, ready, same_root))

-- An announced version of a subscribed file that is not strictly newer, be it older, equal or in conflict
-- with the one here, is not requested: downloads and files are as they were, and the version of the file
-- here compares equal to what it was.
pub node_info_older :
    (junk id peer_id : ℕ) (junk_subscribed : Bool) (paths : Paths) (mkstemp : Option String)
    (msg : NodeInfo) (h : Handled)
    → select_id (relative_path paths msg) h.store.db.files ≡ some id
    → is_subscribed junk_subscribed (relative_path paths msg) h.store.db ≡ true
    → less (get_version junk (relative_path paths msg) h.store.db []) (announced msg h) ≡ false
    → let path = relative_path paths msg in
      let (request, after) = handle_node_info junk junk_subscribed paths mkstemp peer_id msg h in
      (request ≡ none)
      × (after.store.db.downloads ≡ h.store.db.downloads)
      × (after.store.disk ≡ h.store.disk)
      × (equal (get_version junk path h.store.db []) (get_version junk path after.store.db [])
          ≡ true)
unfolding handle_node_info register_newer assimilate_keys
node_info_older junk id peer_id junk_subscribed paths mkstemp msg h known subscribed older =
    let path = relative_path paths msg in
    let v = announced msg h in
    rw
      (
        subscribed,
        handle_node_info,
        less-assimilate_keys junk id paths msg h known,
        older,
        register_newer,
      )
      ((refl, refl, refl, (assimilate_keys_lem junk id path v h.store.db known).1))
