-- ===== src/Backend.antt =====
-- backend/Backend.cpp, the identities of peers: the public keys that are known, the number that this
-- machine gives to each, and the connections. The backend's own key has the number 0.
pub mod Ids
pub mod Mapping
pub mod Arguments
pub mod Packing
pub mod Fitting
pub mod Config
pub mod Loading
pub mod Restoring
pub mod Saved
use openbookfs.Prelude.{
  ℕ, ℤ, pos, eqb_ℤ, String, str_eq, if◌then◌else◌, ◌==◌, List, [], ◌∷◌, ◌++◌, Option, none, some,
  Bool,
}
use openbookfs.VersionVector.{assign}
use openbookfs.Database.{Db}
use openbookfs.Database.Files.{init_root}
use openbookfs.Database.Peers
use openbookfs.Database.Peers.{IdMapEntry, find_id, insert_id, get_client_map}

-- `std::map<int,int>`, the numbers that a peer gives, mapped to those given here.
abbrev pub PeerMap : Type 0
PeerMap = List (ℤ × ℤ)

pub record Backend : Type 0 where
  pub db : Db
  pub id_map : List (String × ℤ)
  -- `m_peerMap`: the connection that serves a peer.
  pub connections : List (ℕ × ℕ)
  pub pub_key : String
  pub display_name : String

-- `(*idMap)[key] = id`
unfoldable pub set_id : String → ℤ → List (String × ℤ) → List (String × ℤ)
set_id key id [] = (key, id) ∷ []
set_id key id ((k, i) ∷ m) = if str_eq k key then (k, id) ∷ m else (k, i) ∷ set_id key id m

-- The end of `setDataDir`: the tables are made, the known keys are loaded, and 0 is this machine.
unfoldable pub load_ids : Backend → Backend
unfolding set_id
load_ids b =
    let db = init_root b.db in
    record b { db = db; id_map = set_id b.pub_key (pos 0) (get_client_map db b.id_map) }

find_connection : ℕ → List (ℕ × ℕ) → Option ℕ
find_connection peer [] = none
find_connection peer ((p, c) ∷ m) = if p == peer then some c else find_connection peer m

-- The new connection is in charge of the peer, or it waits until another one has been removed.
pub data Registered : Type 0 where
  registered : ℕ → Backend → Registered
  waits : ℕ → Backend → Registered

pub register_peer : String → String → ℕ → Backend → Registered
unfolding find_connection
register_peer key name conn b =
    let (peer_id, db) = Peers.register_peer key name b.db in
    let known = record b { db = db; id_map = insert_id key (pos peer_id) b.id_map } in
    elim (find_connection peer_id b.connections) [
      | some _ ↦ waits peer_id known
      | none ↦ registered peer_id (record known { connections = (peer_id, conn) ∷ b.connections })
    ]

erase_connection : ℕ → List (ℕ × ℕ) → List (ℕ × ℕ)
erase_connection peer [] = []
erase_connection peer ((p, c) ∷ m) = if p == peer then m else (p, c) ∷ erase_connection peer m

pub unregister_peer : ℕ → Backend → Backend
unfolding erase_connection
unregister_peer peer b = record b { connections = erase_connection peer b.connections }

-- `mapPeer`: the number of the entry's key here becomes the image of the peer's number. A key that is
-- not in the map is registered in the database, and the map is left as it is.
unfoldable pub map_peer : IdMapEntry → PeerMap → Backend → PeerMap × Backend
map_peer entry m b = elim (find_id entry.public_key b.id_map) [
  | none ↦
      let (peer_id, db) = Peers.register_peer entry.public_key entry.display_name b.db in
      (assign entry.peer_id (pos peer_id) m, record b { db = db })
  | some peer_id ↦ (assign entry.peer_id peer_id m, b)
]

-- `buildPeerMap`: all known peers, and this machine as number 0.
unfoldable pub build_peer_map : Backend → List IdMapEntry → List IdMapEntry
build_peer_map b entries =
    Peers.build_peer_map b.db entries
    ++ record { peer_id = pos 0; public_key = b.pub_key; display_name = b.display_name } ∷ []
