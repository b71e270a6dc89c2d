-- ===== src/Tests/Peers.antt =====
-- backend/Backend.cpp and MessageHandler.cpp on two machines that meet.
use openbookfs.Prelude.{ℤ, pos, String, ◌≡◌, refl, [], ◌∷◌, some, arith, eqb_ℤ, ltb_ℤ}
use openbookfs.VersionVector.{VersionVector, find, get, assign, map_insert, assign_found}
use openbookfs.Database.{ClientRow, Db}
use openbookfs.Database.Files.{init_root, insert_or_ignore, clashes}
use openbookfs.Database.Peers
use openbookfs.Database.Peers.{
  select_client, insert_client, rename_client, find_id, insert_id, insert_rows, get_client_map,
}
use openbookfs.Database.Peers.Registering.{AreKnown}
use openbookfs.Backend.{Backend, set_id, load_ids, map_peer, build_peer_map}
use openbookfs.Backend.Ids.{local_id, local_id-injective, IdsAgree, load_ids-IdsAgree}
use openbookfs.MessageHandler.{
  index, map_entries, ensure_own, map_version, map_peers, handle_id_map,
}
use openbookfs.MessageHandler.Numbers.{handle_id_map_lem}
use openbookfs.MessageHandler.Translation.{map_version_lem}
use openbookfs.MessageHandler.RoundTrip.{version_round_trip, map_version_unknown}
use openbookfs.Tests.Tables.{nothing, texts_differ}

program : Unit {0}
unfolding init_root insert_or_ignore clashes select_client insert_client rename_client
    Peers.register_peer find_id insert_id insert_rows get_client_map Peers.build_peer_map set_id
    load_ids map_peer build_peer_map local_id index map_entries ensure_own map_version map_peers
    handle_id_map find get assign map_insert assign_found eqb_ℤ ltb_ℤ
program = tt

abbrev client : ℤ → String → ClientRow
client (pos n) key = record { client_id = n; client_key = key; client_name = "name" }
client _ key = record { client_id = 0; client_key = key; client_name = "name" }

abbrev known_to_alice : Db
known_to_alice = record nothing {
  known_clients = client (pos 1) "bob" ∷ client (pos 2) "carol" ∷ [];
  next_client_id = 3;
}

abbrev known_to_bob : Db
known_to_bob = record nothing {
  known_clients = client (pos 1) "alice" ∷ client (pos 2) "dave" ∷ [];
  next_client_id = 3;
}

abbrev alice : Backend
alice = record {
  db = known_to_alice;
  id_map = [];
  connections = [];
  pub_key = "alice";
  display_name = "A";
}

abbrev bob_starting : Backend
bob_starting = record {
  db = known_to_bob;
  id_map = [];
  connections = [];
  pub_key = "bob";
  display_name = "B";
}

abbrev bob : Backend
bob = load_ids bob_starting

alice-AreKnown : AreKnown known_to_alice
alice-AreKnown = record {
  apart = ((omega arith, texts_differ "bob" "carol" refl, tt), (tt, tt));
  numbered = (omega arith, omega arith, (omega arith, omega arith, tt));
  positive = omega arith;
}

bob-AreKnown : AreKnown known_to_bob
bob-AreKnown = record {
  apart = ((omega arith, texts_differ "alice" "dave" refl, tt), (tt, tt));
  numbered = (omega arith, omega arith, (omega arith, omega arith, tt));
  positive = omega arith;
}

abbrev dave : String
dave = "dave"

local_id-injective_example : dave ≡ dave
local_id-injective_example =
    local_id-injective bob_starting dave dave (pos 2) bob-AreKnown (unfold program in refl)
      (unfold program in refl)

bob-IdsAgree : IdsAgree bob
bob-IdsAgree = load_ids-IdsAgree bob_starting refl bob-AreKnown

handle_id_map_lem_example :
    let (m, b) = handle_id_map (build_peer_map alice []) 1 [] bob in
    (j : ℤ) × (find (pos 2) m ≡ some j) × (local_id b "carol" ≡ some j) × IdsAgree b
handle_id_map_lem_example =
    handle_id_map_lem alice bob [] 1 "carol" (pos 2) alice-AreKnown bob-IdsAgree
      (unfold program in refl) (unfold program in refl)

-- Alice's vector: two versions of her own, four of Bob's, and seven of Carol's.
abbrev by_alice : VersionVector
by_alice = (pos 0, pos 2) ∷ (pos 1, pos 4) ∷ (pos 2, pos 7) ∷ []

map_version_run :
    (map_version by_alice [] (handle_id_map (build_peer_map alice []) 1 [] bob).0).0
    ≡ (pos 0, pos 4) ∷ (pos 1, pos 2) ∷ (pos 3, pos 7) ∷ []
unfolding program
map_version_run = refl

map_version_lem_example :
    get (map_version by_alice [] (handle_id_map (build_peer_map alice []) 1 [] bob).0).0 (pos 3)
    ≡ get by_alice (pos 2)
map_version_lem_example =
    map_version_lem alice bob [] 1 "carol" (pos 2) (pos 3) by_alice alice-AreKnown bob-IdsAgree
      (unfold program in refl)
      (
        ("alice", unfold program in refl),
        (("bob", unfold program in refl), (("carol", unfold program in refl), tt)),
      )
      ((omega arith, (omega arith, tt)), ((omega arith, tt), (tt, tt))) (unfold program in refl)
      (unfold program in refl)

abbrev alice_started : Backend
alice_started = load_ids alice

alice-IdsAgree : IdsAgree alice_started
alice-IdsAgree = load_ids-IdsAgree alice refl alice-AreKnown

version_round_trip_example :
    let (map_b, b_after) = handle_id_map (build_peer_map alice_started []) 1 [] bob in
    let (map_a, a_after) = handle_id_map (build_peer_map b_after []) 1 [] alice_started in
    get (map_version (map_version by_alice [] map_b).0 [] map_a).0 (pos 2) ≡ get by_alice (pos 2)
version_round_trip_example =
    version_round_trip alice_started bob [] [] 1 1 "carol" (pos 2) by_alice alice-IdsAgree
      bob-IdsAgree (unfold program in refl) (unfold program in refl)
      (
        ("alice", unfold program in refl),
        (("bob", unfold program in refl), (("carol", unfold program in refl), tt)),
      )
      ((omega arith, (omega arith, tt)), ((omega arith, tt), (tt, tt))) (unfold program in refl)

map_version_unknown_example :
    get (map_version ((pos 9, pos 7) ∷ []) ((pos 0, pos 2) ∷ []) ((pos 0, pos 1) ∷ [])).0 (pos 0)
    ≡ pos 7
map_version_unknown_example =
    map_version_unknown (pos 9) (pos 7) ((pos 0, pos 2) ∷ []) ((pos 0, pos 1) ∷ [])
      (unfold program in refl)
