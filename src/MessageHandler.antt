-- ===== src/MessageHandler.antt =====
-- backend/MessageHandler.cpp: the messages of a connected peer, and the map from the peer's numbers of
-- clients to those of this machine.
pub mod Numbers
pub mod Translation
pub mod Files
pub mod Announced
pub mod RoundTrip
use openbookfs.Prelude.{ℕ, ℤ, pos, List, [], ◌∷◌, Option, none, some}
use openbookfs.VersionVector.{VersionVector, find, get, assign}
use openbookfs.Database.Peers.{IdMapEntry}
use openbookfs.Backend.{Backend, PeerMap, map_peer}

-- `m_peerMap[k]` as it is read: a number that is not there is inserted with the image 0, before it is read.
unfoldable pub index : ℤ → PeerMap → ℤ × PeerMap
index k m = elim (find k m) [ some i ↦ (i, m) | none ↦ (pos 0, assign k (pos 0) m) ]

-- The loop of `mapVersion`, with the vector that is written and the map after it.
unfoldable pub map_entries : VersionVector → VersionVector → PeerMap → VersionVector × PeerMap
unfolding index
map_entries [] v_out m = (v_out, m)
map_entries ((k, x) ∷ v_in) v_out m =
    let (i, m') = index k m in map_entries v_in (assign i x v_out) m'

-- `if( v_out.find(0) == v_out.end() ) v_out[0] = 0;`
unfoldable pub ensure_own : VersionVector → VersionVector
ensure_own v = elim (find (pos 0) v) [ some _ ↦ v | none ↦ assign (pos 0) (pos 0) v ]

-- `mapVersion`
unfoldable pub map_version : VersionVector → VersionVector → PeerMap → VersionVector × PeerMap
unfolding map_entries ensure_own
map_version v_in v_out m = let (v, m') = map_entries v_in v_out m in (ensure_own v, m')

-- `v_recv[ entry.client() ] = entry.version()` for the entries of a message.
unfoldable pub read_version : List (ℤ × ℤ) → VersionVector → VersionVector
read_version [] v = v
read_version ((client, version) ∷ es) v = read_version es (assign client version v)

unfoldable pub map_peers : List IdMapEntry → PeerMap → Backend → PeerMap × Backend
map_peers [] m b = (m, b)
map_peers (e ∷ es) m b = let (m', b') = map_peer e m b in map_peers es m' b'

-- `handleMessage( messages::IdMap* )` of the connection with the peer `peer_id`.
unfoldable pub handle_id_map : List IdMapEntry → ℕ → PeerMap → Backend → PeerMap × Backend
unfolding map_peers
handle_id_map entries peer_id m b =
    let (m', b') = map_peers entries m b in (assign (pos 0) (pos peer_id) m', b')
