-- ===== src/Database/Peers.antt =====
-- Database.cpp, the table `known_clients`: each public key that was ever met has a number here.
pub mod Registering
pub mod Keys
use openbookfs.Prelude.{
  ℕ, suc, ℤ, pos, String, str_eq, Bool, true, false, ◌||◌, if◌then◌else◌, ◌==◌, List, [], ◌∷◌, ◌++◌,
  map, Option, none, some,
}
use openbookfs.Database.{ClientRow, Db, into}

-- messages.proto, IdMapEntry
pub record IdMapEntry : Type 0 where
  pub peer_id : ℤ
  pub public_key : String
  pub display_name : String

-- "SELECT client_id FROM known_clients WHERE client_key='…'"
unfoldable pub select_client : String → List ClientRow → Option ℕ
select_client key [] = none
select_client key (c ∷ cs) =
    if str_eq c.client_key key then some c.client_id else select_client key cs

-- "INSERT OR IGNORE INTO known_clients (client_key, client_name) VALUES (…)"
unfoldable pub insert_client : String → String → Db → Db
unfolding select_client
insert_client key name db = elim (select_client key db.known_clients) [
  | some _ ↦ db
  | none ↦ record db {
    known_clients =
        db.known_clients
        ++ record { client_id = db.next_client_id; client_key = key; client_name = name } ∷ [];
    next_client_id = suc db.next_client_id;
  }
]

-- "UPDATE known_clients SET client_name='…' WHERE client_id=…"
unfoldable pub rename_client : ℕ → String → List ClientRow → List ClientRow
rename_client id name [] = []
rename_client id name (c ∷ cs) =
    (if c.client_id == id then record c { client_name = name } else c) ∷ rename_client id name cs

-- `Database::registerPeer`, the number and the database after it. `peerId` is initialised to 0.
unfoldable pub register_peer : String → String → Db → ℕ × Db
unfolding insert_client rename_client select_client
register_peer key name db =
    let inserted = insert_client key name db in
    let peer_id = into 0 (select_client key inserted.known_clients) in
    (peer_id, record inserted { known_clients = rename_client peer_id name inserted.known_clients })

-- `Database::getClientMap` into a `std::map`, kept here in the order of insertion; an entry that is
-- there is not overwritten.
unfoldable pub find_id : String → List (String × ℤ) → Option ℤ
find_id key [] = none
find_id key ((k, i) ∷ m) = if str_eq k key then some i else find_id key m

unfoldable pub insert_id : String → ℤ → List (String × ℤ) → List (String × ℤ)
unfolding find_id
insert_id key id m = elim (find_id key m) [ some _ ↦ m | none ↦ m ++ (key, id) ∷ [] ]

unfoldable pub insert_rows : List ClientRow → List (String × ℤ) → List (String × ℤ)
insert_rows [] m = m
insert_rows (c ∷ cs) m = insert_rows cs (insert_id c.client_key (pos c.client_id) m)

unfoldable pub get_client_map : Db → List (String × ℤ) → List (String × ℤ)
unfolding insert_rows
get_client_map db m = insert_rows db.known_clients m

-- `Database::buildPeerMap`
unfoldable pub build_peer_map : Db → List IdMapEntry → List IdMapEntry
build_peer_map db entries =
    entries
    ++ map
        (λ c. record {
          peer_id = pos c.client_id;
          public_key = c.client_key;
          display_name = c.client_name;
        })
        db.known_clients
