-- ===== src/Backend/Ids.antt =====
-- The map of keys agrees with the database, whatever is loaded and registered.
use mathlib.Core.Option
use mathlib.Core.Option.{or_else, Option}
use openbookfs.Prelude.{
  ℤ, pos, String, str_eq, eq_iff, ◌≡◌, refl, sym, subst, false, if◌then◌else◌, List, [], ◌∷◌, none,
  some, arith, inl, inr, Option-cases,
}
use openbookfs.Database.{Db}
use openbookfs.Database.Files.{init_root, insert_or_ignore}
use openbookfs.Database.Peers.{select_client, find_id, get_client_map}
use openbookfs.Database.Peers.Keys.{find_id-get_client_map}
use openbookfs.Database.Peers.Registering.{
  AreKnown, AreApart, Numbered, select_client_bound, select_client-injective,
}
use openbookfs.Backend.{Backend, set_id, load_ids}

-- The number of a key on this machine, as the own key and the database determine it.
unfoldable pub local_id : Backend → String → Option ℤ
local_id b key =
    if str_eq key b.pub_key
    then some (pos 0)
    else Option.map pos (select_client key b.db.known_clients)

-- Different keys have different numbers.
pub local_id-injective :
    (b : Backend) (key other : String) (i : ℤ)
    → AreKnown b.db
    → local_id b key ≡ some i
    → local_id b other ≡ some i
    → key ≡ other
unfolding local_id
local_id-injective b key other i known h k =
    elim (Option-cases (select_client key b.db.known_clients)) [
      | inl none_key ↦ elim (Option-cases (select_client other b.db.known_clients)) [
        | inl none_other ↦ ground (arith, eq_iff key b.pub_key, eq_iff other b.pub_key)
        | inr (n, found) ↦ ground (
          arith,
          select_client_bound other b.db.next_client_id n b.db.known_clients known.numbered found,
          eq_iff key b.pub_key,
          eq_iff other b.pub_key,
        )
      ]
      | inr (m, found_key) ↦ elim (Option-cases (select_client other b.db.known_clients)) [
        | inl none_other ↦ ground (
          arith,
          select_client_bound key b.db.next_client_id m b.db.known_clients known.numbered found_key,
          eq_iff key b.pub_key,
          eq_iff other b.pub_key,
        )
        | inr (n, found) ↦ ground (
          arith,
          select_client_bound key b.db.next_client_id m b.db.known_clients known.numbered found_key,
          select_client_bound other b.db.next_client_id n b.db.known_clients known.numbered found,
          select_client-injective key other m b.db.known_clients known.apart found_key,
          eq_iff key b.pub_key,
          eq_iff other b.pub_key,
        )
      ]
    ]

-- What the map holds for a key is its number here; only a foreign key can be missing.
abbrev pub Agrees : Backend → String → Option ℤ → Type 0
Agrees b key none = str_eq key b.pub_key ≡ false
Agrees b key (some i) = local_id b key ≡ some i

pub record IdsAgree (b : Backend) : Type 0 where
  pub agree : (key : String) → Agrees b key (find_id key b.id_map)
  pub known : AreKnown b.db

find_id-set_id :
    (key other : String) (i : ℤ) (m : List (String × ℤ))
    → find_id other (set_id key i m) ≡ (if str_eq key other then some i else find_id other m)
unfolding set_id find_id
find_id-set_id key other i [] = refl
find_id-set_id key other i ((k, j) ∷ m) =
    ground (arith, find_id-set_id key other i m, eq_iff k key, eq_iff k other, eq_iff key other)

init_root-clients : (db : Db) → (init_root db).known_clients ≡ db.known_clients
unfolding init_root insert_or_ignore
init_root-clients db = ground arith

init_root-next_client_id : (db : Db) → (init_root db).next_client_id ≡ db.next_client_id
unfolding init_root insert_or_ignore
init_root-next_client_id db = ground arith

init_root-AreKnown : (db : Db) → AreKnown db → AreKnown (init_root db)
init_root-AreKnown db k = record {
  apart = subst AreApart (sym (init_root-clients db)) k.apart;
  numbered =
      subst (λ n. Numbered n (init_root db).known_clients) (sym (init_root-next_client_id db))
        (subst (Numbered db.next_client_id) (sym (init_root-clients db)) k.numbered);
  positive = omega (arith, k.positive, init_root-next_client_id db);
}

Agrees-intro : (b : Backend) (key : String) (o : Option ℤ) → o ≡ local_id b key → Agrees b key o
unfolding local_id
Agrees-intro b key none e = ground arith
Agrees-intro b key (some i) e = sym e

-- Loading the identities, from any table of known peers, makes the map agree with it.
pub load_ids-IdsAgree : (b : Backend) → b.id_map ≡ [] → AreKnown b.db → IdsAgree (load_ids b)
unfolding load_ids local_id find_id or_else
load_ids-IdsAgree b empty k = record {
  agree = λ key. Agrees-intro (load_ids b) key _ (
      ground (
        arith,
        empty,
        find_id-set_id b.pub_key key (pos 0) (get_client_map (init_root b.db) b.id_map),
        find_id-get_client_map key (init_root b.db) b.id_map,
        eq_iff key b.pub_key,
        eq_iff b.pub_key key,
      ));
  known = init_root-AreKnown b.db k;
}
