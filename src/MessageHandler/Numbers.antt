-- ===== src/MessageHandler/Numbers.antt =====
-- After the exchange of the maps of keys, a peer's numbers name the same machines as they do there.
use mathlib.Core.Option.{Option}
use openbookfs.Prelude.{
  ℕ, ℤ, pos, String, ◌≡◌, refl, sym, subst, ◌∙◌, ◌⊎◌, false, if◌then◌else◌, List, [], ◌∷◌, ◌++◌,
  none, some, arith, inl, inr, ap, Bool-cases, Option-cases, eqb_ℤ, eqb_ℤ_refl, map, str_eq, eq_iff,
}
use openbookfs.VersionVector.{find}
use openbookfs.VersionVector.Entries.{find-assign}
use openbookfs.Database.{ClientRow}
use openbookfs.Database.Peers
use openbookfs.Database.Peers.{IdMapEntry, select_client}
use openbookfs.Database.Peers.Registering.{AreKnown, AreApart, ClientApart, select_client_bound}
use openbookfs.Backend.{Backend, PeerMap, map_peer, build_peer_map}
use openbookfs.Backend.Ids.{local_id, IdsAgree}
use openbookfs.Backend.Mapping.{map_peer_lem, local_id-map_peer, map_peer-IdsAgree}
use openbookfs.MessageHandler.{map_peers, handle_id_map}

-- Which key a list of entries gives to a number: the last entry decides.
pub key_of : ℤ → List IdMapEntry → Option String
key_of k [] = none
key_of k (e ∷ es) = elim (key_of k es) [
  | some key ↦ some key
  | none ↦ if eqb_ℤ e.peer_id k then some e.public_key else none
]

pub local_id-map_peers :
    (es : List IdMapEntry) (m : PeerMap) (b : Backend) (key : String) (i : ℤ)
    → local_id b key ≡ some i
    → local_id (map_peers es m b).1 key ≡ some i
unfolding map_peers
local_id-map_peers [] m b key i h = h
local_id-map_peers (e ∷ es) m b key i h =
    local_id-map_peers es (map_peer e m b).0 (map_peer e m b).1 key i
      (local_id-map_peer e m b key i h)

map_peers-IdsAgree :
    (es : List IdMapEntry) (m : PeerMap) (b : Backend) → IdsAgree b → IdsAgree (map_peers es m b).1
unfolding map_peers
map_peers-IdsAgree [] m b a = a
map_peers-IdsAgree (e ∷ es) m b a =
    map_peers-IdsAgree es (map_peer e m b).0 (map_peer e m b).1 (map_peer-IdsAgree e m b a)

-- What the map says of a number: it translates the key, or is as it was.
abbrev Translated : Option String → Backend → Option ℤ → Option ℤ → Type 0
Translated none b old new = new ≡ old
Translated (some key) b old new = (i : ℤ) × (new ≡ some i) × (local_id b key ≡ some i)

key_of_rest :
    (k : ℤ) (e : IdMapEntry) (es : List IdMapEntry)
    → key_of k (e ∷ es) ≡ none
    → (key_of k es ≡ none) × (eqb_ℤ e.peer_id k ≡ false)
unfolding key_of
key_of_rest k e es h = ground arith

map_peers_lem :
    (k : ℤ) (es : List IdMapEntry) (m : PeerMap) (b : Backend) (o : Option String)
    → IdsAgree b
    → key_of k es ≡ o
    → Translated o (map_peers es m b).1 (find k m) (find k (map_peers es m b).0)
unfolding map_peers key_of
map_peers_lem k [] m b none a h = refl
map_peers_lem k [] m b (some key) a h = absurd cc
map_peers_lem k (e ∷ es) m b none a h =
    let (i, here, written) = map_peer_lem e m b a in
    map_peers_lem k es (map_peer e m b).0 (map_peer e m b).1 none (map_peer-IdsAgree e m b a)
      (key_of_rest k e es h).0
    ∙ ap (find k) written
    ∙ ground (arith, find-assign e.peer_id i m k, key_of_rest k e es h)
map_peers_lem k (e ∷ es) m b (some key) a h = elim (Option-cases (key_of k es)) [
  | inr (other, later) ↦
      map_peers_lem k es (map_peer e m b).0 (map_peer e m b).1 (some key)
        (map_peer-IdsAgree e m b a) (ground arith)
  | inl last ↦
      let (i, here, written) = map_peer_lem e m b a in
      let same : e.public_key ≡ key = ground arith in
      (
        i,
        map_peers_lem k es (map_peer e m b).0 (map_peer e m b).1 none (map_peer-IdsAgree e m b a)
              last
            ∙ ap (find k) written
            ∙ ground (arith, find-assign e.peer_id i m k),
        local_id-map_peers es (map_peer e m b).0 (map_peer e m b).1 key i
            (subst (λ q. local_id (map_peer e m b).1 q ≡ some i) same here),
      )
]

-- The entries that a machine sends give each number one key.
abbrev row_entry : ClientRow → IdMapEntry
row_entry c = record {
  peer_id = pos c.client_id;
  public_key = c.client_key;
  display_name = c.client_name;
}

key_of-append :
    (k : ℤ) (xs : List IdMapEntry) (e : IdMapEntry)
    → eqb_ℤ e.peer_id k ≡ false
    → key_of k (xs ++ e ∷ []) ≡ key_of k xs
unfolding key_of
key_of-append k [] e h = ground arith
key_of-append k (x ∷ xs) e h = ground (arith, key_of-append k xs e h)

key_of-ClientApart :
    (c : ClientRow) (cs : List ClientRow)
    → ClientApart c cs
    → key_of (pos c.client_id) (map row_entry cs) ≡ none
unfolding key_of eqb_ℤ
key_of-ClientApart c [] a = refl
key_of-ClientApart c (d ∷ ds) a = ground (arith, key_of-ClientApart c ds a.2)

key_of-select_client :
    (key : String) (n : ℕ) (cs : List ClientRow)
    → AreApart cs
    → select_client key cs ≡ some n
    → key_of (pos n) (map row_entry cs) ≡ some key
unfolding key_of eqb_ℤ select_client
key_of-select_client key n [] a h = cc
key_of-select_client key n (c ∷ cs) a h = elim (Bool-cases (str_eq c.client_key key)) [
  | inl hit ↦ ground (arith, key_of-ClientApart c cs a.0, eq_iff c.client_key key)
  | inr miss ↦ ground (arith, key_of-select_client key n cs a.1)
]

key_of-build_peer_map :
    (a : Backend) (key : String) (n : ℕ)
    → AreKnown a.db
    → select_client key a.db.known_clients ≡ some n
    → key_of (pos n) (build_peer_map a []) ≡ some key
unfolding build_peer_map Peers.build_peer_map eqb_ℤ
key_of-build_peer_map a key n k h =
    key_of-append (pos n) (map row_entry a.db.known_clients) _ (
      ground (arith, select_client_bound key a.db.next_client_id n a.db.known_clients k.numbered h))
    ∙ key_of-select_client key n a.db.known_clients k.apart h

local_id-cases :
    (a : Backend) (key : String) (i : ℤ)
    → AreKnown a.db
    → local_id a key ≡ some i
    → ((key ≡ a.pub_key) × (i ≡ pos 0))
      ⊎ ((n : ℕ) × (select_client key a.db.known_clients ≡ some n)
          × (i ≡ pos n)
          × (eqb_ℤ (pos 0) i ≡ false))
unfolding local_id eqb_ℤ
local_id-cases a key i k h = elim (Bool-cases (str_eq key a.pub_key)) [
  | inl own ↦ inl (ground (arith, eq_iff key a.pub_key))
  | inr foreign ↦ elim (Option-cases (select_client key a.db.known_clients)) [
    | inl unknown ↦ absurd (ground arith)
    | inr (n, known) ↦
        let bound =
          select_client_bound key a.db.next_client_id n a.db.known_clients k.numbered known in
        inr (n, known, ground arith, ground (arith, bound))
  ]
]

-- A peer's map of keys translates its numbers: the image of the number that a key has there is the
-- number that the same key has here. The peer is the machine `a`, whose numbers are in order and
-- whose own number here is known; here the map of keys agrees with the database, and it does so
-- afterwards. No other key has to be known before, since the new ones are registered.
pub handle_id_map_lem :
    (a b : Backend) (m : PeerMap) (peer : ℕ) (key : String) (i : ℤ)
    → AreKnown a.db
    → IdsAgree b
    → local_id b a.pub_key ≡ some (pos peer)
    → local_id a key ≡ some i
    → let (m', b') = handle_id_map (build_peer_map a []) peer m b in
      (j : ℤ) × (find i m' ≡ some j) × (local_id b' key ≡ some j) × IdsAgree b'
unfolding handle_id_map
handle_id_map_lem a b m peer key i k agree met here =
    let after = map_peers-IdsAgree (build_peer_map a []) m b agree in
    let written = find-assign (pos 0) (pos peer) (map_peers (build_peer_map a []) m b).0 i in
    elim (local_id-cases a key i k here) [
      | inl (own, zero) ↦ (
        pos peer,
        ground (arith, written, eqb_ℤ_refl (pos 0)),
        local_id-map_peers (build_peer_map a []) m b key (pos peer)
            (subst (λ q. local_id b q ≡ some (pos peer)) (sym own) met),
        after,
      )
      | inr (n, known, is_n, foreign) ↦
          let (j, image, same) =
            map_peers_lem (pos n) (build_peer_map a []) m b (some key) agree
              (key_of-build_peer_map a key n k known) in
          (j, ground (arith, written), same, after)
    ]
