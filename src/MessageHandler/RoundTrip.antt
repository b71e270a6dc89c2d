-- ===== src/MessageHandler/RoundTrip.antt =====
-- A version vector that goes to a peer and comes back, as in a request for a file that was announced.
use openbookfs.Prelude.{
  ℕ, ℤ, pos, String, ◌≡◌, refl, sym, subst, ◌∙◌, List, [], ◌∷◌, none, some, arith, inl, inr, ap,
  eqb_ℤ_refl, Bool-cases, Option-cases, eqb_ℤ, ltb_ℤ,
}
use text.Mathlib.TextPositions.{eq_refl}
use openbookfs.VersionVector.{VersionVector, assign, find, get, map_insert, assign_found}
use openbookfs.VersionVector.Entries.{get-assign}
use openbookfs.VersionVector.Sorted.{IsMap}
use openbookfs.Database.Peers.{IdMapEntry}
use openbookfs.Database.Peers.Registering.{AreKnown}
use openbookfs.Backend.{Backend, PeerMap, map_peer, build_peer_map}
use openbookfs.Backend.Ids.{local_id, IdsAgree}
use openbookfs.MessageHandler.{
  map_peers, map_entries, ensure_own, map_version, handle_id_map, index,
}
use openbookfs.MessageHandler.Numbers.{handle_id_map_lem, local_id-map_peers}
use openbookfs.MessageHandler.Translation.{
  NamedBy, get-ensure_own, map_entries-cons, map_version_lem,
}
use openbookfs.MessageHandler.Announced.{map_version-IsMap}

map_peer_pub_key :
    (e : IdMapEntry) (m : PeerMap) (b : Backend) → (map_peer e m b).1.pub_key ≡ b.pub_key
unfolding map_peer
map_peer_pub_key e m b = ground arith

map_peers_pub_key :
    (es : List IdMapEntry) (m : PeerMap) (b : Backend) → (map_peers es m b).1.pub_key ≡ b.pub_key
unfolding map_peers
map_peers_pub_key [] m b = refl
map_peers_pub_key (e ∷ es) m b =
    map_peers_pub_key es (map_peer e m b).0 (map_peer e m b).1 ∙ map_peer_pub_key e m b

abbrev Named : Backend → ℤ → Type 0
Named b j = (key : String) × (local_id b key ≡ some j)

own_Named : (b : Backend) → Named b (pos 0)
unfolding local_id
own_Named b = (b.pub_key, ground (arith, eq_refl b.pub_key))

NamedBy-map_insert :
    (b : Backend) (j x : ℤ) (v : VersionVector)
    → Named b j
    → NamedBy b v
    → NamedBy b (map_insert j x v)
unfolding map_insert
NamedBy-map_insert b j x [] n a = (n, tt)
NamedBy-map_insert b j x ((k, y) ∷ v) n a = elim (Bool-cases (ltb_ℤ j k)) [
  | inl below ↦ rw (below, map_insert) ((n, a))
  | inr not_below ↦ rw (not_below, map_insert) ((a.0, NamedBy-map_insert b j x v n a.1))
]

NamedBy-assign_found :
    (b : Backend) (j x : ℤ) (v : VersionVector) → NamedBy b v → NamedBy b (assign_found j x v)
unfolding assign_found
NamedBy-assign_found b j x [] a = tt
NamedBy-assign_found b j x ((k, y) ∷ v) a = elim (Bool-cases (eqb_ℤ k j)) [
  | inl hit ↦ rw (hit, assign_found) a
  | inr miss ↦ rw (miss, assign_found) ((a.0, NamedBy-assign_found b j x v a.1))
]

NamedBy-assign :
    (b : Backend) (j x : ℤ) (v : VersionVector) → Named b j → NamedBy b v → NamedBy b (assign j x v)
unfolding assign
NamedBy-assign b j x v n a = elim (Option-cases (find j v)) [
  | inl new ↦
      rw (new, assign)
        (NamedBy-assign_found b j x (map_insert j (pos 0) v) (NamedBy-map_insert b j (pos 0) v n a))
  | inr (y, old) ↦ rw (old, assign) (NamedBy-assign_found b j x v a)
]

ensure_own-NamedBy : (b : Backend) (v : VersionVector) → NamedBy b v → NamedBy b (ensure_own v)
unfolding ensure_own
ensure_own-NamedBy b v a = elim (Option-cases (find (pos 0) v)) [
  | inl new ↦ rw (new, ensure_own) (NamedBy-assign b (pos 0) (pos 0) v (own_Named b) a)
  | inr (y, old) ↦ rw (old, ensure_own) a
]

-- Two machines that meet: `b` has handled the map of `a`.
module _ (a b : Backend) (m : PeerMap) (peer : ℕ) where
  abbrev after_a : PeerMap × Backend
  after_a = handle_id_map (build_peer_map a []) peer m b

  map_entries-NamedBy :
      (v v_out : VersionVector)
      → AreKnown a.db
      → IdsAgree b
      → local_id b a.pub_key ≡ some (pos peer)
      → NamedBy a v
      → NamedBy after_a.1 v_out
      → NamedBy after_a.1 (map_entries v v_out after_a.0).0
  unfolding map_entries
  map_entries-NamedBy [] v_out known agree met named out = out
  map_entries-NamedBy ((q, x) ∷ v) v_out known agree met ((name, its), named) out =
      let (j, image, same, _) = handle_id_map_lem a b m peer name q known agree met its in
      subst (λ r. NamedBy after_a.1 r.0) (sym (map_entries-cons q x j v v_out after_a.0 image))
        (map_entries-NamedBy v (assign j x v_out) known agree met named
          (NamedBy-assign after_a.1 j x v_out (name, same) out))

  -- The vector names only numbers that this machine has given.
  pub map_version-NamedBy :
      (v : VersionVector)
      → AreKnown a.db
      → IdsAgree b
      → local_id b a.pub_key ≡ some (pos peer)
      → NamedBy a v
      → NamedBy after_a.1 (map_version v [] after_a.0).0
  unfolding map_version
  map_version-NamedBy v known agree met named =
      ensure_own-NamedBy after_a.1 (map_entries v [] after_a.0).0
        (map_entries-NamedBy v [] known agree met named tt)

handle_id_map_pub_key :
    (es : List IdMapEntry) (peer : ℕ) (m : PeerMap) (b : Backend)
    → (handle_id_map es peer m b).1.pub_key ≡ b.pub_key
unfolding handle_id_map
handle_id_map_pub_key es peer m b = map_peers_pub_key es m b

local_id-handle_id_map :
    (es : List IdMapEntry) (peer : ℕ) (m : PeerMap) (b : Backend) (key : String) (i : ℤ)
    → local_id b key ≡ some i
    → local_id (handle_id_map es peer m b).1 key ≡ some i
unfolding handle_id_map
local_id-handle_id_map es peer m b key i h = local_id-map_peers es m b key i h

-- A version vector of `a` that is mapped by `b`, sent back, and mapped by `a` has for every client
-- that `a` knows the version that it had. Each machine knows the number of the other; `b` has handled
-- the map of `a`, and `a` a map of `b` that was built after that.
pub version_round_trip :
    (a b : Backend) (m n : PeerMap) (peer back : ℕ) (key : String) (i : ℤ) (v : VersionVector)
    → IdsAgree a
    → IdsAgree b
    → local_id b a.pub_key ≡ some (pos peer)
    → local_id a b.pub_key ≡ some (pos back)
    → NamedBy a v
    → IsMap v
    → local_id a key ≡ some i
    → let (map_b, b_after) = handle_id_map (build_peer_map a []) peer m b in
      let (map_a, a_after) = handle_id_map (build_peer_map b_after []) back n a in
      get (map_version (map_version v [] map_b).0 [] map_a).0 i ≡ get v i
version_round_trip a b m n peer back key i v agree_a agree_b a_met b_met named s here =
    let (map_b, b_after) = handle_id_map (build_peer_map a []) peer m b in
    let (j, _, there, agree_after) =
      handle_id_map_lem a b m peer key i agree_a.known agree_b a_met here in
    let known_back : local_id a b_after.pub_key ≡ some (pos back) =
      ap (local_id a) (handle_id_map_pub_key (build_peer_map a []) peer m b) ∙ b_met in
    map_version_lem b_after a n back key j i (map_version v [] map_b).0 agree_after.known agree_a
      known_back (map_version-NamedBy a b m peer v agree_a.known agree_b a_met named)
      (map_version-IsMap v map_b) there
      (local_id-handle_id_map (build_peer_map b_after []) back n a key i here)
    ∙ map_version_lem a b m peer key i j v agree_a.known agree_b a_met named s here there

-- A number that the peer has not announced is taken for 0, this machine: whatever version this
-- machine had in the vector that is mapped so far is replaced.
pub map_version_unknown :
    (k x : ℤ) (v_out : VersionVector) (m : PeerMap)
    → find k m ≡ none
    → get (map_version ((k, x) ∷ []) v_out m).0 (pos 0) ≡ x
unfolding map_version map_entries index
map_version_unknown k x v_out m h =
    rw (h, map_version, map_entries, index)
      (get-ensure_own (assign (pos 0) x v_out) (pos 0)
        ∙ ground (arith, get-assign (pos 0) x v_out (pos 0), eqb_ℤ_refl (pos 0)))
