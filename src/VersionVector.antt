-- ===== src/VersionVector.antt =====
-- backend/VersionVector.h and VersionVector.cpp: the map from client ids to version numbers by which
-- peers decide whose copy of a file is newer. The `std::map` is its list of entries in the order of
-- the keys, and `std::set` is the list of its keys.
pub mod Entries
pub mod Pointwise
pub mod Order
pub mod Sorted
use openbookfs.Prelude.{
  ℤ, pos, ltb_ℤ, eqb_ℤ, List, [], ◌∷◌, Bool, true, false, not, if◌then◌else◌, Option, none, some,
}

abbrev pub VersionVector : Type 0
VersionVector = List (ℤ × ℤ)

abbrev pub KeySet : Type 0
KeySet = List ℤ

-- `std::set::insert`: a key that is there is not inserted again.
pub set_insert : ℤ → KeySet → KeySet
set_insert k [] = k ∷ []
set_insert k (j ∷ ks) =
    if ltb_ℤ k j then k ∷ j ∷ ks else if eqb_ℤ k j then j ∷ ks else j ∷ set_insert k ks

insert_keys : VersionVector → KeySet → KeySet
insert_keys [] keys = keys
insert_keys ((k, v) ∷ m) keys = insert_keys m (set_insert k keys)

pub key_union : KeySet → VersionVector → VersionVector → KeySet
unfolding insert_keys set_insert
key_union keys self other = insert_keys other (insert_keys self keys)

-- `std::map::find`
unfoldable pub find : ℤ → VersionVector → Option ℤ
find k [] = none
find k ((j, v) ∷ m) = if eqb_ℤ j k then some v else find k m

-- `operator[]` of a constant vector: a missing entry reads as 0, and is not inserted.
unfoldable pub get : VersionVector → ℤ → ℤ
unfolding find
get m k = elim (find k m) [ some v ↦ v | none ↦ pos 0 ]

-- `std::map::insert` of a key that the caller has not found, in the order of the keys.
unfoldable pub map_insert : ℤ → ℤ → VersionVector → VersionVector
map_insert k v [] = (k, v) ∷ []
map_insert k v ((j, w) ∷ m) = if ltb_ℤ k j then (k, v) ∷ (j, w) ∷ m else (j, w) ∷ map_insert k v m

-- A write through the iterator that `find` returned.
unfoldable pub assign_found : ℤ → ℤ → VersionVector → VersionVector
assign_found k v [] = []
assign_found k v ((j, w) ∷ m) = if eqb_ℤ j k then (j, v) ∷ m else (j, w) ∷ assign_found k v m

-- `v[key] = value` through the reference that the other `operator[]` returns: it finds the entry, or
-- inserts it with the value 0, before the value is written.
unfoldable pub assign : ℤ → ℤ → VersionVector → VersionVector
unfolding find map_insert assign_found
assign k v m = elim (find k m) [
  | some _ ↦ assign_found k v m
  | none ↦ assign_found k v (map_insert k (pos 0) m)
]

-- The loop of `operator<`, with its flag `atLeastOneLess`.
less_loop : KeySet → VersionVector → VersionVector → Bool → Bool
less_loop [] self other at_least_one_less = at_least_one_less
less_loop (key ∷ keys) self other at_least_one_less =
    let v1 = get self key in
    let v2 = get other key in
    if ltb_ℤ v2 v1
    then false
    else less_loop keys self other (if ltb_ℤ v1 v2 then true else at_least_one_less)

less_equal_loop : KeySet → VersionVector → VersionVector → Bool
less_equal_loop [] self other = true
less_equal_loop (key ∷ keys) self other =
    if ltb_ℤ (get other key) (get self key) then false else less_equal_loop keys self other

equal_loop : KeySet → VersionVector → VersionVector → Bool
equal_loop [] self other = true
equal_loop (key ∷ keys) self other =
    if not (eqb_ℤ (get self key) (get other key)) then false else equal_loop keys self other

-- `operator<`
unfoldable pub less : VersionVector → VersionVector → Bool
unfolding key_union less_loop get
less self other = less_loop (key_union [] self other) self other false

-- `operator<=`
unfoldable pub less_equal : VersionVector → VersionVector → Bool
unfolding key_union less_equal_loop get
less_equal self other = less_equal_loop (key_union [] self other) self other

-- `operator>`
pub greater : VersionVector → VersionVector → Bool
greater self other = less other self

-- `operator>=`
unfoldable pub greater_equal : VersionVector → VersionVector → Bool
greater_equal self other = less_equal other self

-- `operator==`
unfoldable pub equal : VersionVector → VersionVector → Bool
unfolding key_union equal_loop get
equal self other = equal_loop (key_union [] self other) self other

-- `operator!=`
unfoldable pub not_equal : VersionVector → VersionVector → Bool
unfolding equal
not_equal self other = not (equal self other)
