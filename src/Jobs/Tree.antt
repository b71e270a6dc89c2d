-- ===== src/Jobs/Tree.antt =====
-- jobs/SendTree.cpp: the listing of the whole tree for a peer, directory by directory. What the system
-- says of a path, `is_directory` and `stat`, is a parameter, and `stat` gives the size.
use openbookfs.Prelude.{
  ℤ, ℕ, zero, suc, Bool, true, false, if◌then◌else◌, List, [], ◌∷◌, ◌++◌, Option, none, some,
  String,
}
use openbookfs.Database.{FilePath, Paths, Db}
use openbookfs.Database.Files.{readdir_list}
use openbookfs.Database.Peers.{IdMapEntry}
use openbookfs.Database.Versions.{get_version}
use openbookfs.Backend.{Backend, build_peer_map}
use openbookfs.MessageHandler.Files.{NodeInfo}

pub data TreeMessage : Type 0 where
  id_map : List IdMapEntry → TreeMessage
  dir_chunk : FilePath → List String → TreeMessage
  node_info : NodeInfo → TreeMessage

-- What comes of a call of `sendMessage`: the message is in the queue of the peer's connection; or the
-- connection, which is in the map, does not have the peer's number, and ignores it; or the peer is not in the map;
-- or its queue has no free node for this priority, and PriorityQueue::insert uses a null pointer.
pub data Answer : Type 0 where
  queued ignored absent full : Answer

-- The calls of `sendMessage` that have been made, those that put nothing into a queue, and what the others
-- have put there.
pub record Sending : Type 0 where
  pub calls : ℕ
  pub lost : ℕ
  pub sent : List TreeMessage

-- What the job reads: paths, the database, the order of its answers, the files on the disk, and what comes of
-- its calls of `sendMessage`, each by its number: a peer may go and come back between any two of them.
pub record Tree : Type 0 where
  pub paths : Paths
  pub order_by : List String → List String
  pub junk : ℕ
  pub db : Db
  pub is_directory : FilePath → Bool
  pub stat : FilePath → Option ℤ
  pub answer : ℕ → Answer

-- The result of `sendMessage`, if it has one.
pub data Sent : Type 0 where
  told : Bool → Sending → Sent
  crashed : Sent

-- The end of a loop, if it is at its end.
pub data Run : Type 0 where
  ended : Sending → Run
  overrun running : Run

abbrev pub next : Sent → (Bool → Sending → Run) → Run
next (told ok s) f = f ok s
next crashed f = overrun

abbrev pub and_then : Run → (Sending → Run) → Run
and_then (ended s) f = f s
and_then overrun f = overrun
and_then running f = running

abbrev pub no_calls : Sending
no_calls = record { calls = 0; lost = 0; sent = [] }

abbrev pub lose : Sending → Sending
lose s = record s { calls = suc s.calls; lost = suc s.lost }

abbrev pub answered : Answer → TreeMessage → Sending → Sent
answered queued m s = told true (record s { calls = suc s.calls; sent = s.sent ++ m ∷ [] })
answered ignored m s = told true (lose s)
answered absent m s = told false (lose s)
answered full m s = crashed

module _ (t : Tree) where
  -- Backend::sendMessage, with Connection::enqueueMessage
  unfoldable pub send : TreeMessage → Sending → Sent
  send m s = answered (t.answer s.calls) m s

  unfoldable pub listing : FilePath → List String
  listing dir = readdir_list t.order_by t.junk dir false t.db []

  unfoldable pub subscribed_listing : FilePath → List String
  subscribed_listing dir = readdir_list t.order_by t.junk dir true t.db []

  -- the children that are directories, as paths
  abbrev pub subdirectories : FilePath → List String → List FilePath
  subdirectories dir [] = []
  subdirectories dir (child ∷ children) =
      let rest = subdirectories dir children in
      if t.is_directory (t.paths.join dir child) then t.paths.join dir child ∷ rest else rest

  abbrev pub info : FilePath → String → ℤ → NodeInfo
  info dir child size = record {
    parent = dir;
    path = child;
    size = size;
    version = get_version t.junk (t.paths.join dir child) t.db [];
  }

  -- The second loop over the children: it goes on past a file without `stat`, and stops when the peer is not
  -- there.
  unfoldable pub send_infos : FilePath → List String → Sending → Run
  unfolding send
  send_infos dir [] s = ended s
  send_infos dir (child ∷ children) s = elim (t.stat (t.paths.join dir child)) [
    | none ↦ send_infos dir children s
    | some size ↦
        next (send (node_info (info dir child size)) s)
          λ ok after. let rest = send_infos dir children after in if ok then rest else ended after
  ]

  -- The loop over the queue of directories. Without fuel it is not at its end.
  unfoldable pub send_dirs : ℕ → List FilePath → Sending → Run
  unfolding send send_infos
  send_dirs zero queue s = running
  send_dirs (suc fuel) [] s = ended s
  send_dirs (suc fuel) (dir ∷ queue) s = next (send (dir_chunk dir (listing dir)) s) λ ok after.
      let rest =
        and_then (send_infos dir (subscribed_listing dir) after)
          (send_dirs fuel (queue ++ subdirectories dir (listing dir))) in
      if ok then rest else ended after

  -- SendTree::go
  unfoldable pub go : ℕ → Backend → Run
  unfolding send send_dirs
  go fuel backend =
      next (send (id_map (build_peer_map backend [])) no_calls)
        λ _ after. send_dirs fuel ("/" ∷ []) after
