-- ===== src/Database/Peers/Keys.antt =====
-- The map of keys that is loaded from the table.
use mathlib.Core.Option
use mathlib.Core.Option.{or_else}
use openbookfs.Prelude.{
  ℤ, pos, String, str_eq, eq_iff, ◌≡◌, refl, if◌then◌else◌, List, [], ◌∷◌, ◌++◌, none, some, arith,
}
use openbookfs.Database.{ClientRow, Db}
use openbookfs.Database.Peers.{select_client, find_id, insert_id, insert_rows, get_client_map}

find_id-append :
    (key : String) (xs ys : List (String × ℤ))
    → find_id key (xs ++ ys) ≡ or_else (find_id key xs) (find_id key ys)
unfolding find_id or_else
find_id-append key [] ys = refl
find_id-append key ((k, i) ∷ xs) ys = ground (arith, find_id-append key xs ys)

pub find_id-insert :
    (key other : String) (i : ℤ) (m : List (String × ℤ))
    → find_id other (insert_id key i m)
      ≡ or_else (find_id other m) (if str_eq key other then some i else none)
unfolding find_id insert_id or_else
find_id-insert key other i m =
    ground (arith, find_id-append other m ((key, i) ∷ []), eq_iff key other)

find_id-insert_rows :
    (key : String) (cs : List ClientRow) (m : List (String × ℤ))
    → find_id key (insert_rows cs m)
      ≡ or_else (find_id key m) (Option.map pos (select_client key cs))
unfolding insert_rows select_client or_else
find_id-insert_rows key [] m = ground arith
find_id-insert_rows key (c ∷ cs) m = ground (
  arith,
  find_id-insert_rows key cs (insert_id c.client_key (pos c.client_id) m),
  find_id-insert c.client_key key (pos c.client_id) m,
)

-- Keys that were in the map keep their numbers, and the others get those of the table.
pub find_id-get_client_map :
    (key : String) (db : Db) (m : List (String × ℤ))
    → find_id key (get_client_map db m)
      ≡ or_else (find_id key m) (Option.map pos (select_client key db.known_clients))
unfolding get_client_map
find_id-get_client_map key db m = find_id-insert_rows key db.known_clients m
