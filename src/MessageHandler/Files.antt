-- ===== src/MessageHandler/Files.antt =====
-- backend/MessageHandler.cpp: the messages about files, `NodeInfo`, `SendFile`, `FileChunk` and
-- `DirChunk`. The tables and the files are a `Store`, and messages to the peer are results.
use Prim.Native.String.{◌++◌ as append_text}
use openbookfs.Prelude.{
  ℕ, ℤ, pos, String, str_eq, Bool, not, if◌then◌else◌, List, [], Option, none, some,
}
use openbookfs.VersionVector.{VersionVector, less}
use openbookfs.Database.{FilePath, Paths}
use openbookfs.Database.Files.{is_subscribed, merge}
use openbookfs.Database.Versions.{get_version, assimilate_keys}
use openbookfs.Database.Downloads.{FileChunk, Store}
use openbookfs.Database.Downloads.Handlers.{Calls, add_download, merge_data}
use openbookfs.Backend.{PeerMap}
use openbookfs.MessageHandler.{map_version, read_version}

-- messages.proto, NodeInfo and SendFile, the fields that the handlers read.
pub record NodeInfo : Type 0 where
  pub parent : FilePath
  pub path : String
  pub size : ℤ
  pub version : List (ℤ × ℤ)

pub record FileRequest : Type 0 where
  pub path : FilePath
  pub tx : ℤ
  pub offset : ℤ
  pub version : List (ℤ × ℤ)

-- What the handler of one connection keeps: `m_peerMap`, and the store of its backend.
pub record Handled : Type 0 where
  pub peer_map : PeerMap
  pub store : Store

unfoldable pub relative_path : Paths → NodeInfo → FilePath
relative_path paths msg =
    if str_eq msg.parent "/" then append_text "/" msg.path else paths.join msg.parent msg.path

-- `v_mine < v_theirs`, and what follows it.
unfoldable pub register_newer :
    Option String
    → ℕ
    → FilePath
    → ℤ
    → VersionVector
    → VersionVector
    → Store
    → Option FileRequest × Store
register_newer mkstemp peer_id path size v_mine v_theirs s =
    if less v_mine v_theirs
    then (
      some (record { path = path; tx = pos 0; offset = pos 0; version = v_theirs }),
      add_download mkstemp (pos peer_id) path size v_theirs s,
    )
    else (none, s)

-- `handleMessage( messages::NodeInfo* )`
unfoldable pub handle_node_info :
    ℕ → Bool → Paths → Option String → ℕ → NodeInfo → Handled → Option FileRequest × Handled
unfolding relative_path register_newer
handle_node_info junk junk_subscribed paths mkstemp peer_id msg h =
    let path = relative_path paths msg in
    if not (is_subscribed junk_subscribed path h.store.db)
    then (none, h)
    else let (v_theirs, peer_map) = map_version (read_version msg.version []) [] h.peer_map in
      let db = assimilate_keys junk path v_theirs h.store.db in
      let v_mine = get_version junk path db [] in
      let (request, store) =
        register_newer mkstemp peer_id path msg.size v_mine v_theirs (record h.store { db = db }) in
      (request, record { peer_map = peer_map; store = store })

-- The job that `handleMessage( messages::SendFile* )` enqueues: path, transaction, offset, version.
pub record SendJob : Type 0 where
  pub path : FilePath
  pub tx : ℤ
  pub offset : ℤ
  pub version : VersionVector

unfoldable pub handle_send_file : FileRequest → PeerMap → SendJob × PeerMap
handle_send_file msg m =
    let (v_theirs, m') = map_version (read_version msg.version []) [] m in
    (record { path = msg.path; tx = msg.tx; offset = msg.offset; version = v_theirs }, m')

-- `handleMessage( messages::FileChunk* )`
unfoldable pub handle_file_chunk : ℕ → Calls → ℕ → FileChunk → Store → Store
handle_file_chunk junk calls peer_id chunk s = merge_data junk calls (pos peer_id) chunk s

-- `handleMessage( messages::DirChunk* )`, where the directory is there or can be created.
unfoldable pub handle_dir_chunk : ℕ → Paths → Bool → FilePath → List String → Store → Store
handle_dir_chunk junk paths created path entries s =
    if created then record s { db = merge paths junk path entries s.db } else s
