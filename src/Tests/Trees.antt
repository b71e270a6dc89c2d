-- ===== src/Tests/Trees.antt =====
-- jobs/SendTree.cpp on a tree with one file and one directory below the root.
use openbookfs.Prelude.{
  ℕ, ◌≤◌, ◌==◌, pos, str_eq, ◌≡◌, ◌⊎◌, inl, inr, eqb_ℤ, refl, [], ◌∷◌, none, some, Elem, arith,
  if◌then◌else◌,
}
use openbookfs.VersionVector.{find, get, assign}
use openbookfs.Database.Files.{select_id, readdir_list}
use openbookfs.Database.Versions.{get_version}
use openbookfs.Backend.{Backend, build_peer_map}
use openbookfs.Jobs.Tree.{
  Tree, Sending, dir_chunk, node_info, id_map, send, listing, subscribed_listing, send_infos,
  send_dirs, go, queued, absent, full, ended, overrun,
}
use openbookfs.Jobs.Directories.{Reaches, itself, deeper, Holds, directory, no_directory, one_more}
use openbookfs.Jobs.Coverage.{go_lem}
use openbookfs.Tests.Tables.{flat, tree}

program : Unit {0}
unfolding eqb_ℤ select_id readdir_list get_version find get assign build_peer_map send listing
    subscribed_listing send_infos send_dirs go
program = tt

abbrev shared : Tree
shared = record {
  paths = record flat { join = λ d e. if str_eq e "photos" then "/photos" else "/notes" };
  order_by = λ ns. ns;
  junk = 99;
  db = tree;
  is_directory = λ p. str_eq p "/photos";
  stat = λ p. if str_eq p "/notes" then some (pos 5) else none;
  answer = λ k. queued;
}

abbrev sender : Backend
sender = record { db = tree; id_map = []; connections = []; pub_key = "ka"; display_name = "a" }

go_run :
    go shared 3 sender
    ≡ ended (record {
      calls = 4;
      lost = 0;
      sent =
          id_map (build_peer_map sender [])
          ∷ dir_chunk "/" ("notes" ∷ "photos" ∷ [])
          ∷ node_info
              (record { parent = "/"; path = "notes"; size = pos 5; version = (pos 0, pos 0) ∷ [] })
          ∷ dir_chunk "/photos" []
          ∷ [];
    })
unfolding program
go_run = refl

-- The peer goes when the file is announced, and comes back: the file is skipped, and the job goes on.
abbrev away_once : Tree
away_once = record shared { answer = λ k. if k == 2 then absent else queued }

away_run :
    go away_once 3 sender
    ≡ ended (record {
      calls = 4;
      lost = 1;
      sent =
          id_map (build_peer_map sender [])
          ∷ dir_chunk "/" ("notes" ∷ "photos" ∷ [])
          ∷ dir_chunk "/photos" []
          ∷ [];
    })
unfolding program
away_run = refl

two_directories : Holds shared "/" 2
two_directories =
    unfold program in
    directory "/" 1 (
      one_more "/photos" [] 1 0 1 (directory "/photos" 0 (no_directory 0)) (no_directory 0)
        (omega arith))

photos_below : Reaches shared "/" "/photos"
photos_below = unfold program in deeper "/" "/photos" "/photos" (inl refl) (itself "/photos")

go_lem_example :
    ((after : Sending) × (go shared 3 sender ≡ ended after)
      × ((1 ≤ after.lost) ⊎ Elem (dir_chunk "/photos" []) after.sent))
    ⊎ ((go shared 3 sender ≡ overrun) × ((k : ℕ) × (shared.answer k ≡ full)))
go_lem_example =
    go_lem shared 2 3 sender "/photos" (dir_chunk "/photos" []) two_directories (omega arith)
      photos_below (unfold program in inr (inl refl))
