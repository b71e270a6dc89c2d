-- ===== src/Backend/Mapping.antt =====
-- One entry of a peer's IdMap: the peer's number is mapped to the number of the same key here.
use mathlib.Core.Option.{Option}
use text.Mathlib.TextPositions.{eq_refl}
use openbookfs.Prelude.{
  ℤ, pos, String, str_eq, eq_iff, ◌≡◌, refl, subst, false, none, some, arith, inl, inr,
  Option-cases,
}
use openbookfs.VersionVector.{assign}
use openbookfs.Database.{Db}
use openbookfs.Database.Peers
use openbookfs.Database.Peers.{IdMapEntry, select_client, find_id}
use openbookfs.Database.Peers.Registering.{register_peer_lem, register_peer-AreKnown}
use openbookfs.Backend.{Backend, PeerMap, map_peer}
use openbookfs.Backend.Ids.{local_id, Agrees, IdsAgree}

abbrev registered_db : IdMapEntry → Backend → Db
registered_db e b = (Peers.register_peer e.public_key e.display_name b.db).1

-- A number that a key has stays the number of that key.
local_id-register :
    (e : IdMapEntry) (key : String) (i : ℤ) (b : Backend)
    → local_id b key ≡ some i
    → local_id (record b { db = registered_db e b }) key ≡ some i
unfolding local_id
local_id-register e key i b h =
    ground (arith, register_peer_lem e.public_key e.display_name key b.db, eq_iff key e.public_key)

registered_id :
    (e : IdMapEntry) (b : Backend)
    → str_eq e.public_key b.pub_key ≡ false
    → local_id (record b { db = registered_db e b }) e.public_key
      ≡ some (pos (Peers.register_peer e.public_key e.display_name b.db).0)
unfolding local_id
registered_id e b h =
    ground
      (arith, register_peer_lem e.public_key e.display_name e.public_key b.db, eq_refl e.public_key)

Agrees-register :
    (e : IdMapEntry) (b : Backend) (key : String) (o : Option ℤ)
    → Agrees b key o
    → Agrees (record b { db = registered_db e b }) key o
Agrees-register e b key none a = a
Agrees-register e b key (some i) a = local_id-register e key i b a

-- The image of the entry's number is the number of its key here.
pub map_peer_lem :
    (e : IdMapEntry) (m : PeerMap) (b : Backend)
    → IdsAgree b
    → let (m', b') = map_peer e m b in
      (i : ℤ) × (local_id b' e.public_key ≡ some i) × (m' ≡ assign e.peer_id i m)
unfolding map_peer
map_peer_lem e m b a = elim (Option-cases (find_id e.public_key b.id_map)) [
  | inl new ↦
      rw (new, map_peer)
        ((
          pos (Peers.register_peer e.public_key e.display_name b.db).0,
          registered_id e b (subst (Agrees b e.public_key) new (a.agree e.public_key)),
          refl,
        ))
  | inr (i, known) ↦
      rw (known, map_peer) ((i, subst (Agrees b e.public_key) known (a.agree e.public_key), refl))
]

pub local_id-map_peer :
    (e : IdMapEntry) (m : PeerMap) (b : Backend) (key : String) (i : ℤ)
    → local_id b key ≡ some i
    → local_id (map_peer e m b).1 key ≡ some i
unfolding map_peer
local_id-map_peer e m b key i h = elim (Option-cases (find_id e.public_key b.id_map)) [
  | inl new ↦ rw (new, map_peer) (local_id-register e key i b h)
  | inr (j, known) ↦ rw (known, map_peer) h
]

pub map_peer-IdsAgree :
    (e : IdMapEntry) (m : PeerMap) (b : Backend) → IdsAgree b → IdsAgree (map_peer e m b).1
unfolding map_peer
map_peer-IdsAgree e m b a = elim (Option-cases (find_id e.public_key b.id_map)) [
  | inl new ↦
      rw (new, map_peer)
        (record {
          agree = λ key. Agrees-register e b key (find_id key b.id_map) (a.agree key);
          known = register_peer-AreKnown e.public_key e.display_name b.db a.known;
        })
  | inr (j, known) ↦ rw (known, map_peer) a
]
