-- ===== src/VersionVector/Entries.antt =====
-- Reads and writes of single entries, and the set of keys that the comparisons walk.
use openbookfs.Prelude.{
  ℤ, pos, eqb_ℤ, eqb_ℤ_iff, eqb_ℤ_refl, ℤ-cases, ◌≡◌, refl, ◌⊎◌, inl, inr, [], ◌∷◌, none, some,
  Elem, arith, if◌then◌else◌, Option-cases, ◌↔◌,
}
use openbookfs.VersionVector.{
  VersionVector, KeySet, set_insert, insert_keys, key_union, find, get, map_insert, assign_found,
  assign,
}

abbrev pub keys_of : VersionVector → KeySet
keys_of [] = []
keys_of ((k, v) ∷ m) = k ∷ keys_of m

find-map_insert :
    (k : ℤ) (v : ℤ) (m : VersionVector) (q : ℤ)
    → find k m ≡ none
    → find q (map_insert k v m) ≡ (if eqb_ℤ k q then some v else find q m)
unfolding find map_insert
find-map_insert k v [] q h = refl
find-map_insert k v ((j, w) ∷ m) q h =
    ground (arith, find-map_insert k v m q, eqb_ℤ_iff j k, eqb_ℤ_iff k q, eqb_ℤ_iff j q)

find-assign_found :
    (k : ℤ) (v old : ℤ) (m : VersionVector) (q : ℤ)
    → find k m ≡ some old
    → find q (assign_found k v m) ≡ (if eqb_ℤ k q then some v else find q m)
unfolding find assign_found
find-assign_found k v old [] q h = cc
find-assign_found k v old ((j, w) ∷ m) q h =
    ground (arith, find-assign_found k v old m q, eqb_ℤ_iff j k, eqb_ℤ_iff k q, eqb_ℤ_iff j q)

pub find-assign :
    (k v : ℤ) (m : VersionVector) (q : ℤ)
    → find q (assign k v m) ≡ (if eqb_ℤ k q then some v else find q m)
unfolding assign
find-assign k v m q = elim (Option-cases (find k m)) [
  | inl absent ↦
      rw (absent, assign)
        (ground (
          arith,
          find-map_insert k (pos 0) m k absent,
          find-map_insert k (pos 0) m q absent,
          find-assign_found k v (pos 0) (map_insert k (pos 0) m) q,
          eqb_ℤ_refl k,
        ))
  | inr (old, found) ↦ rw (found, assign) (find-assign_found k v old m q found)
]

-- A write makes its key read as the value, and no other key changes.
pub get-assign :
    (k v : ℤ) (m : VersionVector) (q : ℤ)
    → get (assign k v m) q ≡ (if eqb_ℤ k q then v else get m q)
unfolding get
get-assign k v m q = ground (arith, find-assign k v m q)

find-absent : (q : ℤ) (m : VersionVector) → ¬ Elem q (keys_of m) → find q m ≡ none
unfolding find
find-absent q [] h = refl
find-absent q ((j, w) ∷ m) h =
    ground (arith, eqb_ℤ_iff j q, find-absent q m (λ e. h (inr e)), λ (e : q ≡ j). h (inl e))

-- A key that has no entry reads as 0.
pub get-absent : (m : VersionVector) (q : ℤ) → ¬ Elem q (keys_of m) → get m q ≡ pos 0
unfolding get
get-absent m q h = rw (find-absent q m h, get)

Elem-set_insert : (q k : ℤ) (ks : KeySet) → Elem q (set_insert k ks) ↔ ((q ≡ k) ⊎ Elem q ks)
unfolding set_insert
Elem-set_insert q k [] = (λ h. h, λ h. h)
Elem-set_insert q k (j ∷ ks) = (
  ground (arith, Elem-set_insert q k ks, eqb_ℤ_iff k j),
  ground (arith, Elem-set_insert q k ks, eqb_ℤ_iff k j),
)

Elem-insert_keys :
    (q : ℤ) (m : VersionVector) (ks : KeySet)
    → Elem q (insert_keys m ks) ↔ (Elem q (keys_of m) ⊎ Elem q ks)
unfolding insert_keys
Elem-insert_keys q [] ks = (λ h. inr h, elim [ inl e ↦ absurd e | inr h ↦ h ])
Elem-insert_keys q ((k, v) ∷ m) ks = (
  ground (arith, Elem-insert_keys q m (set_insert k ks), Elem-set_insert q k ks),
  ground (arith, Elem-insert_keys q m (set_insert k ks), Elem-set_insert q k ks),
)

-- The keys of the union are the keys of the two vectors.
pub Elem-key_union :
    (q : ℤ) (a b : VersionVector)
    → Elem q (key_union [] a b) ↔ (Elem q (keys_of a) ⊎ Elem q (keys_of b))
unfolding key_union
Elem-key_union q a b = (
  ground (arith, Elem-insert_keys q b (insert_keys a []), Elem-insert_keys q a []),
  ground (arith, Elem-insert_keys q b (insert_keys a []), Elem-insert_keys q a []),
)

pub Elem-or-not : (q : ℤ) (ks : KeySet) → Elem q ks ⊎ (¬ Elem q ks)
Elem-or-not q [] = inr (λ e. e)
Elem-or-not q (k ∷ ks) = elim (ℤ-cases q k) [
  | inl e ↦ inl (inl e)
  | inr n ↦ elim (Elem-or-not q ks) [
    | inl h ↦ inl (inr h)
    | inr h ↦ inr (elim [ inl e ↦ n e | inr e ↦ h e ])
  ]
]
