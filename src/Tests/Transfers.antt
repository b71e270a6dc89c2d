-- ===== src/Tests/Transfers.antt =====
-- Downloads, jobs/SendFile.cpp and the announcement of a file, for a file of three bytes.
use openbookfs.Prelude.{
  pos, ◌+ℤ◌, ◌≡◌, refl, true, false, [], ◌∷◌, ◌++◌, List, some, none, arith, eqb_ℤ, ltb_ℤ,
}
use openbookfs.VersionVector.{
  VersionVector, find, get, assign, map_insert, assign_found, less, less_equal, greater_equal,
  equal, not_equal,
}
use openbookfs.Database.{DownloadRow}
use openbookfs.Database.Files.{select_id, select_subscribed, is_subscribed}
use openbookfs.Database.Versions.{get_version, set_version}
use openbookfs.Database.Downloads.{
  Bytes, Store, find_file, set_file, remove_file, resize, truncate, write_at, select_download,
  restart, set_recd, delete_download, delete_download_v, download_version, has_download_v,
  insert_download_v, restart_download, create_download,
}
use openbookfs.Database.Downloads.Handlers.{
  temp_of, add_download, complete_download, seek, write_chunk, merge_data,
}
use openbookfs.Database.Downloads.Receiving.{Receiving}
use openbookfs.Database.Downloads.Starting.{add_download-new}
use openbookfs.Jobs.{Round, failed, min_1024, read_bytes, send_loop, send_file}
use openbookfs.Jobs.Transfer.{IsSteady, Transferred, deliver}
use openbookfs.Jobs.Delivery.{Untouched, transfer_new, transfer_restart, transfer_changed}
use openbookfs.MessageHandler.{index, map_entries, ensure_own, map_version, read_version}
use openbookfs.MessageHandler.Files.{
  NodeInfo, Handled, relative_path, register_newer, handle_node_info,
}
use openbookfs.MessageHandler.Announced.{announced, node_info_newer, node_info_older}
use openbookfs.Tests.Tables.{tree, flat}

program : Unit {0}
unfolding find get assign map_insert assign_found less less_equal greater_equal equal not_equal
    select_id select_subscribed is_subscribed get_version set_version find_file set_file remove_file
    resize truncate write_at select_download restart set_recd delete_download delete_download_v
    download_version has_download_v insert_download_v restart_download create_download temp_of
    add_download complete_download seek write_chunk merge_data min_1024 read_bytes send_loop
    send_file deliver index map_entries ensure_own map_version read_version relative_path
    register_newer handle_node_info eqb_ℤ ltb_ℤ ◌+ℤ◌
program = tt

abbrev source : Bytes
source = 7 ∷ 8 ∷ 9 ∷ []

-- The version at the sender, by its numbers, and at the receiver, by those there.
abbrev sent : VersionVector
sent = (pos 0, pos 1) ∷ []

abbrev received : VersionVector
received = (pos 0, pos 0) ∷ (pos 5, pos 1) ∷ []

abbrev receiver : Store
receiver = record { db = tree; disk = record { stage = []; root = ("/notes", 1 ∷ []) ∷ [] } }

-- One byte in each round.
abbrev round_of : VersionVector → Round
round_of v = record {
  version = v;
  opens = true;
  seeks = true;
  content = source;
  reads = some 1;
  connected = true;
}

abbrev rounds : List Round
rounds = round_of sent ∷ round_of sent ∷ round_of sent ∷ []

round-IsSteady : IsSteady source sent (round_of sent)
round-IsSteady = record {
  same_version = unfold program in refl;
  opened = refl;
  sought = refl;
  same_file = refl;
  bytes_read = 1;
  some_read = refl;
  not_empty = omega arith;
  online = refl;
}

transfer_run :
    let (chunks, end) = send_file "/notes" (pos 0) sent (some 3) rounds (pos 0) in
    let after =
      deliver 99
        (pos 5)
        chunks
        (add_download (some "Xy") (pos 5) "/notes" (pos 3) received receiver) in
    find_file "/notes" after.disk.root ≡ some source
unfolding program
transfer_run = refl

transfer_new_example :
    Transferred source "/notes"
      (pos 5)
      received
      99
      (add_download (some "Xy") (pos 5) "/notes" (pos 3) received receiver)
      (send_file "/notes" (pos 0) sent (some 3) rounds (pos 0))
transfer_new_example =
    transfer_new 99 "/notes" (pos 5) (pos 0) "Xy" sent received source rounds receiver
      (round-IsSteady, (round-IsSteady, (round-IsSteady, tt))) (unfold program in refl)
      (unfold program in refl) ((omega arith, tt), (tt, tt)) (omega arith) (omega arith)
      (unfold program in refl)

-- Half of an older version has been received.
abbrev older_row : DownloadRow
older_row = record {
  path = "/notes";
  peer = pos 5;
  tx = pos 0;
  temp = "Ab";
  recd = pos 1;
  size = pos 2;
}

abbrev busy : Store
busy = record {
  db = record tree { downloads = older_row ∷ []; downloads_v = [] };
  disk = record { stage = ("Ab", 4 ∷ 0 ∷ []) ∷ []; root = [] };
}

transfer_restart_example :
    Transferred source "/notes"
      (pos 5)
      received
      99
      (add_download none (pos 5) "/notes" (pos 3) received busy)
      (send_file "/notes" (pos 0) sent (some 3) rounds (pos 0))
transfer_restart_example =
    transfer_restart 99 "/notes" (pos 5) (pos 0) none older_row sent received (4 ∷ 0 ∷ []) source
      rounds busy (round-IsSteady, (round-IsSteady, (round-IsSteady, tt))) (unfold program in refl)
      refl refl (unfold program in refl) (unfold program in refl) ((omega arith, tt), (tt, tt))
      (omega arith) (omega arith) (unfold program in refl)

abbrev registered : Store
registered = add_download (some "Xy") (pos 5) "/notes" (pos 3) received receiver

registered-Receiving : Receiving source "/notes" (pos 5) (pos 0) "Xy" received 0 registered
registered-Receiving =
    (add_download-new "/notes" (pos 5) "Xy" source received receiver (unfold program in refl)
      (unfold program in refl) ((omega arith, tt), (tt, tt))).0

abbrev edited : VersionVector
edited = (pos 0, pos 2) ∷ []

transfer_changed_example :
    let (chunks, end) =
      send_loop "/notes"
        (pos 0)
        sent
        (pos 3)
        ((round_of sent ∷ []) ++ round_of edited ∷ round_of sent ∷ [])
        (pos 0) in
    (end ≡ failed)
    × Untouched source "/notes"
        (pos 5)
        (pos 0)
        "Xy"
        received
        registered
        (deliver 99 (pos 5) chunks registered)
transfer_changed_example =
    transfer_changed 99 "/notes" (pos 5) (pos 0) (pos 0) "Xy" sent received source
      (round_of sent ∷ []) (round_of sent ∷ []) (round_of edited) 0 registered (round-IsSteady, tt)
      (unfold program in refl) registered-Receiving (omega arith) (unfold program in refl)

-- The peer's number 0 is the number 5 here.
abbrev handler : Handled
handler = record { peer_map = (pos 0, pos 5) ∷ []; store = receiver }

abbrev announcement : NodeInfo
announcement = record { parent = "/"; path = "notes"; size = pos 3; version = (pos 0, pos 1) ∷ [] }

node_info_newer_example :
    let (request, after) = handle_node_info 99 false flat (some "Xy") 5 announcement handler in
    (request
      ≡ some (record {
        path = "/notes";
        tx = pos 0;
        offset = pos 0;
        version = announced announcement handler;
      }))
    × Receiving source "/notes" (pos 5) (pos 0) "Xy" (announced announcement handler) 0 after.store
    × (after.store.disk.root ≡ handler.store.disk.root)
unfolding relative_path
node_info_newer_example =
    node_info_newer 99 2 5 false flat "Xy" announcement source handler (unfold program in refl)
      (unfold program in refl) refl (unfold program in refl) (unfold program in refl)
      (unfold program in refl)

abbrev old_announcement : NodeInfo
old_announcement = record { parent = "/"; path = "notes"; size = pos 3; version = [] }

node_info_older_example :
    let (request, after) = handle_node_info 99 false flat (some "Xy") 5 old_announcement handler in
    (request ≡ none)
    × (after.store.db.downloads ≡ handler.store.db.downloads)
    × (after.store.disk ≡ handler.store.disk)
    × (equal
          (get_version 99 "/notes" handler.store.db [])
          (get_version 99 "/notes" after.store.db [])
        ≡ true)
unfolding relative_path
node_info_older_example =
    node_info_older 99 2 5 false flat (some "Xy") old_announcement handler (unfold program in refl)
      (unfold program in refl) (unfold program in refl)
