-- ===== src/Database/Peers/Registering.antt =====
-- Keys and numbers of peers determine each other, and a number once given stays.
use mathlib.Core.Option.{or_else}
use text.Mathlib.TextPositions.{eq_refl}
use openbookfs.Prelude.{
  ℕ, suc, ◌<◌, String, str_eq, eq_iff, ◌≡◌, refl, ◌∙◌, ◌≢◌, Bool, if◌then◌else◌, ◌==◌, List, [],
  ◌∷◌, ◌++◌, none, some, arith, inl, inr, Bool-cases, Option-cases,
}
use openbookfs.Database.{ClientRow, Db, into}
use openbookfs.Database.Peers.{select_client, insert_client, rename_client, register_peer}

abbrev pub ClientApart : ClientRow → List ClientRow → Type 0
ClientApart c [] = Unit {0}
ClientApart c (d ∷ ds) =
    (c.client_id ≢ d.client_id) × (c.client_key ≢ d.client_key) × ClientApart c ds

abbrev pub AreApart : List ClientRow → Type 0
AreApart [] = Unit {0}
AreApart (c ∷ cs) = ClientApart c cs × AreApart cs

abbrev pub Numbered : ℕ → List ClientRow → Type 0
Numbered n [] = Unit {0}
Numbered n (c ∷ cs) = (0 < c.client_id) × (c.client_id < n) × Numbered n cs

-- Ids and keys are unique, and the ids are positive and below the AUTOINCREMENT counter.
pub record AreKnown (db : Db) : Type 0 where
  pub apart : AreApart db.known_clients
  pub numbered : Numbered db.next_client_id db.known_clients
  pub positive : 0 < db.next_client_id

select_client-append :
    (key : String) (xs ys : List ClientRow)
    → select_client key (xs ++ ys) ≡ or_else (select_client key xs) (select_client key ys)
unfolding select_client or_else
select_client-append key [] ys = refl
select_client-append key (x ∷ xs) ys = ground (arith, select_client-append key xs ys)

select_client-rename :
    (key : String) (id : ℕ) (name : String) (cs : List ClientRow)
    → select_client key (rename_client id name cs) ≡ select_client key cs
unfolding select_client rename_client
select_client-rename key id name [] = refl
select_client-rename key id name (c ∷ cs) = ground (arith, select_client-rename key id name cs)

pub select_client_bound :
    (key : String) (n i : ℕ) (cs : List ClientRow)
    → Numbered n cs
    → select_client key cs ≡ some i
    → (0 < i) × (i < n)
unfolding select_client
select_client_bound key n i [] b h = cc
select_client_bound key n i (c ∷ cs) b h = ground (arith, select_client_bound key n i cs b.2)

select_client-ClientApart :
    (c : ClientRow) (key : String) (i : ℕ) (cs : List ClientRow)
    → ClientApart c cs
    → select_client key cs ≡ some i
    → c.client_id ≢ i
unfolding select_client
select_client-ClientApart c key i [] a h e = cc
select_client-ClientApart c key i (d ∷ ds) a h e = elim (Bool-cases (str_eq d.client_key key)) [
  | inl hit ↦ a.0 (ground arith)
  | inr miss ↦ select_client-ClientApart c key i ds a.2 (ground arith) e
]

-- Different keys have different numbers.
pub select_client-injective :
    (key other : String) (i : ℕ) (cs : List ClientRow)
    → AreApart cs
    → select_client key cs ≡ some i
    → select_client other cs ≡ some i
    → key ≡ other
unfolding select_client
select_client-injective key other i [] d h k = cc
select_client-injective key other i (c ∷ cs) d h k = ground (
  arith,
  select_client-injective key other i cs d.1,
  select_client-ClientApart c key i cs d.0,
  select_client-ClientApart c other i cs d.0,
  eq_iff c.client_key key,
  eq_iff c.client_key other,
)

abbrev new_client : String → String → Db → ClientRow
new_client key name db = record {
  client_id = db.next_client_id;
  client_key = key;
  client_name = name;
}

-- The number that the key has after its insertion.
number : String → String → Db → ℕ
number key name db = into db.next_client_id (select_client key db.known_clients)

insert_client-select :
    (key name other : String) (db : Db)
    → select_client other (insert_client key name db).known_clients ≡ (
        if str_eq other key
        then some (number key name db)
        else select_client other db.known_clients)
unfolding insert_client select_client or_else number
insert_client-select key name other db = elim (Option-cases (select_client key db.known_clients)) [
  | inl new ↦ ground (
    arith,
    select_client-append other db.known_clients (new_client key name db ∷ []),
    eq_iff other key,
    eq_iff key other,
  )
  | inr (i, old) ↦ ground (arith, eq_iff other key)
]

register_peer-number :
    (key name : String) (db : Db) → (register_peer key name db).0 ≡ number key name db
unfolding register_peer
register_peer-number key name db = ground (arith, insert_client-select key name key db, eq_refl key)

-- Registering a key returns the number of the key: the old one if it was known, and otherwise a new
-- one. From then on the key has that number, and no other key gets or loses one.
pub register_peer_lem :
    (key name other : String) (db : Db)
    → let (id, after) = register_peer key name db in
      (id ≡ into db.next_client_id (select_client key db.known_clients))
      × (select_client other after.known_clients
          ≡ (if str_eq other key then some id else select_client other db.known_clients))
unfolding register_peer
register_peer_lem key name other db = (
  register_peer-number key name db ∙ (unfold number in refl),
  ground (
    arith,
    select_client-rename other (number key name db) name (insert_client key name db).known_clients,
    insert_client-select key name other db,
    register_peer-number key name db,
  ),
)

rename-ClientApart :
    (c : ClientRow) (id : ℕ) (name : String) (b : Bool) (cs : List ClientRow)
    → ClientApart c cs
    → ClientApart (if b then record c { client_name = name } else c) (rename_client id name cs)
unfolding rename_client
rename-ClientApart c id name b [] a = ground arith
rename-ClientApart c id name b (d ∷ ds) a = ground (arith, rename-ClientApart c id name b ds a.2)

rename-AreApart :
    (id : ℕ) (name : String) (cs : List ClientRow)
    → AreApart cs
    → AreApart (rename_client id name cs)
unfolding rename_client
rename-AreApart id name [] a = tt
rename-AreApart id name (c ∷ cs) a =
    (rename-ClientApart c id name (c.client_id == id) cs a.0, rename-AreApart id name cs a.1)

rename-Numbered :
    (n id : ℕ) (name : String) (cs : List ClientRow)
    → Numbered n cs
    → Numbered n (rename_client id name cs)
unfolding rename_client
rename-Numbered n id name [] b = tt
rename-Numbered n id name (c ∷ cs) b = ground (arith, rename-Numbered n id name cs b.2)

Numbered-append :
    (n : ℕ) (cs : List ClientRow) (c : ClientRow)
    → Numbered n cs
    → 0 < n
    → c.client_id ≡ n
    → Numbered (suc n) (cs ++ c ∷ [])
Numbered-append n [] c b p e = (omega arith, omega arith, tt)
Numbered-append n (d ∷ ds) c b p e = (b.0, omega arith, Numbered-append n ds c b.2 p e)

ClientApart-append :
    (c d : ClientRow) (cs : List ClientRow)
    → ClientApart c cs
    → ClientApart c (d ∷ [])
    → ClientApart c (cs ++ d ∷ [])
ClientApart-append c d [] a b = b
ClientApart-append c d (x ∷ xs) a b = (a.0, a.1, ClientApart-append c d xs a.2 b)

AreApart-append :
    (n : ℕ) (cs : List ClientRow) (c : ClientRow)
    → AreApart cs
    → Numbered n cs
    → c.client_id ≡ n
    → select_client c.client_key cs ≡ none
    → AreApart (cs ++ c ∷ [])
unfolding select_client
AreApart-append n [] c a b e h = (tt, tt)
AreApart-append n (d ∷ ds) c a b e h = (
  ClientApart-append d c ds a.0 (
    λ same. absurd (omega arith),
    λ same. ground (arith, (eq_iff d.client_key c.client_key).1 same),
    tt,
  ),
  AreApart-append n ds c a.1 b.2 e (ground arith),
)

insert_client-AreKnown :
    (key name : String) (db : Db) → AreKnown db → AreKnown (insert_client key name db)
unfolding insert_client
insert_client-AreKnown key name db k = elim (Option-cases (select_client key db.known_clients)) [
  | inl new ↦
      rw (new, insert_client)
        (record {
          apart =
              AreApart-append db.next_client_id db.known_clients (new_client key name db) k.apart
                k.numbered refl new;
          numbered =
              Numbered-append db.next_client_id db.known_clients (new_client key name db) k.numbered
                k.positive refl;
          positive = omega arith;
        })
  | inr (i, old) ↦ rw (old, insert_client) k
]

-- Registering a peer keeps keys and numbers unique, and the numbers positive.
pub register_peer-AreKnown :
    (key name : String) (db : Db) → AreKnown db → AreKnown (register_peer key name db).1
unfolding register_peer
register_peer-AreKnown key name db k =
    let inserted = insert_client-AreKnown key name db k in
    record {
      apart = rename-AreApart _ name (insert_client key name db).known_clients inserted.apart;
      numbered =
          rename-Numbered _ _ name (insert_client key name db).known_clients inserted.numbered;
      positive = inserted.positive;
    }
