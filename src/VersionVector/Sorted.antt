-- ===== src/VersionVector/Sorted.antt =====
-- The representation of `std::map`: the entries stand in the strict order of their keys, and every
-- write keeps them so.
use openbookfs.Prelude.{
  ℤ, pos, eqb_ℤ, eqb_ℤ_iff, ltb_ℤ, ◌≡◌, refl, ◌<ℤ◌, ltb_ℤ→lt, ltb_ℤ→ge, Bool-cases, [], ◌∷◌, false,
  none, Option-cases, arith, inl, inr, eq_of_parts, parts_of_eq,
}
use openbookfs.VersionVector.{VersionVector, find, map_insert, assign_found, assign}

abbrev pub AllAbove : ℤ → VersionVector → Type 0
AllAbove k [] = Unit {0}
AllAbove k ((j, v) ∷ m) = (k <ℤ j) × AllAbove k m

abbrev pub IsMap : VersionVector → Type 0
IsMap [] = Unit {0}
IsMap ((k, v) ∷ m) = AllAbove k m × IsMap m

AllAbove-mono : (i k : ℤ) (m : VersionVector) → i <ℤ k → AllAbove k m → AllAbove i m
AllAbove-mono i k [] h a = tt
AllAbove-mono i k ((j, v) ∷ m) h a = (omega arith, AllAbove-mono i k m h a.1)

pub find-AllAbove : (k : ℤ) (m : VersionVector) → AllAbove k m → find k m ≡ none
unfolding find
find-AllAbove k [] a = refl
find-AllAbove k ((j, v) ∷ m) a = elim (Bool-cases (eqb_ℤ j k)) [
  | inl e ↦ absurd (omega (arith, parts_of_eq j k ((eqb_ℤ_iff j k).0 e), a.0))
  | inr e ↦ rw e (find-AllAbove k m a.1)
]

map_insert-AllAbove :
    (i k v : ℤ) (m : VersionVector) → i <ℤ k → AllAbove i m → AllAbove i (map_insert k v m)
unfolding map_insert
map_insert-AllAbove i k v [] h a = (h, tt)
map_insert-AllAbove i k v ((j, w) ∷ m) h a = elim (Bool-cases (ltb_ℤ k j)) [
  | inl e ↦ rw e (h, (a.0, a.1))
  | inr e ↦ rw e (a.0, map_insert-AllAbove i k v m h a.1)
]

map_insert-IsMap :
    (k v : ℤ) (m : VersionVector) → find k m ≡ none → IsMap m → IsMap (map_insert k v m)
unfolding map_insert find
map_insert-IsMap k v [] absent s = (tt, tt)
map_insert-IsMap k v ((j, w) ∷ m) absent s = elim (Bool-cases (ltb_ℤ k j)) [
  | inl e ↦ rw e ((ltb_ℤ→lt k j e, AllAbove-mono k j m (ltb_ℤ→lt k j e) s.0), s)
  | inr e ↦
      rw e (map_insert-AllAbove j k v m (above e) s.0, map_insert-IsMap k v m (ground arith) s.1)
]
  where
    above : ltb_ℤ k j ≡ false → j <ℤ k
    above e = elim (Bool-cases (ltb_ℤ j k)) [
      | inl lt ↦ ltb_ℤ→lt j k lt
      | inr ge ↦ absurd (
          let same = eq_of_parts j k (omega (arith, ltb_ℤ→ge k j e, ltb_ℤ→ge j k ge)) in
          ground (arith, (eqb_ℤ_iff j k).1 same))
    ]

assign_found-AllAbove :
    (i k v : ℤ) (m : VersionVector) → AllAbove i m → AllAbove i (assign_found k v m)
unfolding assign_found
assign_found-AllAbove i k v [] a = tt
assign_found-AllAbove i k v ((j, w) ∷ m) a = elim (Bool-cases (eqb_ℤ j k)) [
  | inl e ↦ rw e a
  | inr e ↦ rw e (a.0, assign_found-AllAbove i k v m a.1)
]

assign_found-IsMap : (k v : ℤ) (m : VersionVector) → IsMap m → IsMap (assign_found k v m)
unfolding assign_found
assign_found-IsMap k v [] s = tt
assign_found-IsMap k v ((j, w) ∷ m) s = elim (Bool-cases (eqb_ℤ j k)) [
  | inl e ↦ rw e s
  | inr e ↦ rw e (assign_found-AllAbove j k v m s.0, assign_found-IsMap k v m s.1)
]

-- A write to a map, to a key that it has or to a new one, leaves a map.
pub assign-IsMap : (k v : ℤ) (m : VersionVector) → IsMap m → IsMap (assign k v m)
unfolding assign
assign-IsMap k v m s = elim (Option-cases (find k m)) [
  | inl absent ↦
      rw (absent, assign)
        (assign_found-IsMap k v (map_insert k (pos 0) m) (map_insert-IsMap k (pos 0) m absent s))
  | inr (old, found) ↦ rw (found, assign) (assign_found-IsMap k v m s)
]
