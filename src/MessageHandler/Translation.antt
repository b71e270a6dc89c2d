-- ===== src/MessageHandler/Translation.antt =====
-- A version vector that a peer sends means the same after `mapVersion`.
use mathlib.Core.Option.{or_else}
use openbookfs.Prelude.{
  ℕ, ℤ, pos, String, ◌≡◌, refl, sym, ◌∙◌, ◌≢◌, ◌⊎◌, [], ◌∷◌, some, arith, inl, inr, ap, eqb_ℤ_iff,
  eqb_ℤ_refl, ℤ-cases,
}
use openbookfs.VersionVector.{assign, find, get, VersionVector}
use openbookfs.VersionVector.Entries.{find-assign}
use openbookfs.VersionVector.Sorted.{IsMap, find-AllAbove}
use openbookfs.Database.Peers.Registering.{AreKnown}
use openbookfs.Backend.{Backend, PeerMap, build_peer_map}
use openbookfs.Backend.Ids.{local_id, local_id-injective, IdsAgree}
use openbookfs.MessageHandler.{index, map_entries, ensure_own, map_version, handle_id_map}
use openbookfs.MessageHandler.Numbers.{handle_id_map_lem}

-- Every key of the vector has an image, and only `k` has the image `j`.
abbrev pub OnlyFrom : PeerMap → ℤ → ℤ → VersionVector → Type 0
OnlyFrom m k j [] = Unit {0}
OnlyFrom m k j ((q, x) ∷ v) =
    ((i : ℤ) × (find q m ≡ some i) × ((q ≡ k) ⊎ (i ≢ j))) × OnlyFrom m k j v

pub map_entries-cons :
    (q x i : ℤ) (v v_out : VersionVector) (m : PeerMap)
    → find q m ≡ some i
    → map_entries ((q, x) ∷ v) v_out m ≡ map_entries v (assign i x v_out) m
unfolding map_entries index
map_entries-cons q x i v v_out m h = ground arith

find-map_entries :
    (m : PeerMap) (k j : ℤ) (v v_out : VersionVector)
    → find k m ≡ some j
    → OnlyFrom m k j v
    → IsMap v
    → find j (map_entries v v_out m).0 ≡ or_else (find k v) (find j v_out)
unfolding map_entries or_else find
find-map_entries m k j [] v_out h o s = refl
find-map_entries m k j ((q, x) ∷ v) v_out h ((i, image, only), o) (above, s) =
    ap (λ r. find j r.0) (map_entries-cons q x i v v_out m image)
    ∙ find-map_entries m k j v (assign i x v_out) h o s
    ∙ (elim (ℤ-cases q k) [
      | inl same ↦
          ground
            (arith, find-assign i x v_out j, find-AllAbove q v above, eqb_ℤ_refl j, eqb_ℤ_refl k)
      | inr other ↦ ground (arith, find-assign i x v_out j, eqb_ℤ_iff q k, eqb_ℤ_iff i j)
    ])

pub get-ensure_own : (v : VersionVector) (j : ℤ) → get (ensure_own v) j ≡ get v j
unfolding ensure_own get
get-ensure_own v j = ground (arith, find-assign (pos 0) (pos 0) v j, eqb_ℤ_iff (pos 0) j)

get-map_version :
    (m : PeerMap) (k j : ℤ) (v : VersionVector)
    → find k m ≡ some j
    → OnlyFrom m k j v
    → IsMap v
    → get (map_version v [] m).0 j ≡ get v k
unfolding map_version get find or_else
get-map_version m k j v h o s =
    ground (arith, get-ensure_own (map_entries v [] m).0 j, find-map_entries m k j v [] h o s)

-- Every number in the vector is the number of a key on that machine.
abbrev pub NamedBy : Backend → VersionVector → Type 0
NamedBy a [] = Unit {0}
NamedBy a ((q, x) ∷ v) = ((key : String) × (local_id a key ≡ some q)) × NamedBy a v

same_number :
    (a : Backend) (name key : String) (q i : ℤ)
    → name ≡ key
    → local_id a name ≡ some q
    → local_id a key ≡ some i
    → q ≡ i
same_number a name key q i e h k = cc

NamedBy-OnlyFrom :
    (a b : Backend) (m : PeerMap) (peer : ℕ) (key : String) (i j : ℤ) (v : VersionVector)
    → AreKnown a.db
    → IdsAgree b
    → local_id b a.pub_key ≡ some (pos peer)
    → NamedBy a v
    → local_id a key ≡ some i
    → local_id (handle_id_map (build_peer_map a []) peer m b).1 key ≡ some j
    → OnlyFrom (handle_id_map (build_peer_map a []) peer m b).0 i j v
NamedBy-OnlyFrom a b m peer key i j [] known agree met named here there = tt
NamedBy-OnlyFrom a b m peer key i j ((q, x) ∷ v) known agree met ((name, its), named) here there =
    let (l, image, same, after) = handle_id_map_lem a b m peer name q known agree met its in
    let only = elim (ℤ-cases l j) as (λ _. (q ≡ i) ⊎ (l ≢ j)) [
      | inl e ↦ inl (
          same_number a name key q i
            (local_id-injective (handle_id_map (build_peer_map a []) peer m b).1 name key l
              after.known same (there ∙ ap some (sym e)))
            its here)
      | inr ne ↦ inr ne
    ] in
    ((l, image, only), NamedBy-OnlyFrom a b m peer key i j v known agree met named here there)

-- A version vector of a peer means the same here: each client has after `mapVersion` the version under
-- its number here that it had under its number there. The peer's map of keys was handled before, its
-- own number here was known, and each number of the vector is one that a key has there.
pub map_version_lem :
    (a b : Backend) (m : PeerMap) (peer : ℕ) (key : String) (i j : ℤ) (v : VersionVector)
    → AreKnown a.db
    → IdsAgree b
    → local_id b a.pub_key ≡ some (pos peer)
    → NamedBy a v
    → IsMap v
    → local_id a key ≡ some i
    → local_id (handle_id_map (build_peer_map a []) peer m b).1 key ≡ some j
    → get (map_version v [] (handle_id_map (build_peer_map a []) peer m b).0).0 j ≡ get v i
map_version_lem a b m peer key i j v known agree met named s here there =
    let (l, image, same, after) = handle_id_map_lem a b m peer key i known agree met here in
    get-map_version (handle_id_map (build_peer_map a []) peer m b).0 i j v (ground arith)
      (NamedBy-OnlyFrom a b m peer key i j v known agree met named here there) s
