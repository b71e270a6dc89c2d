-- ===== src/Marshall/Found.antt =====
-- Marshall.cpp and messages.cpp: the search of the templates ends at the type that the byte names.
use openbookfs.Prelude.{ℕ, zero, suc, ◌+◌, ◌-◌, ◌/◌, ◌^◌, ◌≤◌, ◌<◌, ◌≡◌, arith, some, none}
use openbookfs.Prelude.{ℕ-cases, refl, ltb_ℤ, ◌⊎◌, lt→ltb, ge→ltb, inl, inr, ap, ◌∙◌}
use openbookfs.Marshall.Dispatch.{find_type, parse_message_id, char_of, num_msg}

pow_suc : (d : ℕ) → 2 ^ suc d ≡ 2 ^ d + 2 ^ d
pow_suc d = omega arith

below :
    (f na nc type : ℕ)
    → type < (na + nc) / 2
    → find_type (suc f) na nc type ≡ find_type f na ((na + nc) / 2) type
unfolding find_type
below f na nc type h = rw (lt→ltb type ((na + nc) / 2) h) refl

above :
    (f na nc type : ℕ)
    → (na + nc) / 2 < type
    → find_type (suc f) na nc type ≡ find_type f ((na + nc) / 2) nc type
unfolding find_type
above f na nc type h =
    rw (ge→ltb type ((na + nc) / 2) (omega arith), lt→ltb ((na + nc) / 2) type h) refl

here : (f na nc type : ℕ) → (na + nc) / 2 ≡ type → find_type (suc f) na nc type ≡ some type
unfolding find_type
here f na nc type h =
    rw (ge→ltb type ((na + nc) / 2) (omega arith), ge→ltb ((na + nc) / 2) type (omega arith))
      (ap some h)

pub find_type_lem :
    (d na nc type : ℕ)
    → na ≤ type
    → type < nc
    → nc - na ≤ 2 ^ d
    → find_type (suc d) na nc type ≡ some type
find_type_lem zero na nc type lo hi h = here zero na nc type (omega arith)
find_type_lem (suc d) na nc type lo hi h = elim (ℕ-cases type ((na + nc) / 2)) [
  | inl lt ↦
      below (suc d) na nc type lt
      ∙ find_type_lem d na ((na + nc) / 2) type lo lt (omega (arith, pow_suc d))
  | inr ge ↦ elim (ℕ-cases ((na + nc) / 2) type) [
    | inl lt ↦
        above (suc d) na nc type lt
        ∙ find_type_lem d ((na + nc) / 2) nc type (omega arith) hi (omega (arith, pow_suc d))
    | inr le ↦ here (suc d) na nc type (omega arith)
  ]
]

-- The bytes that name a type, and the others: 0 is one of those, although it is the type of Quit.
pub parse_message_id_lem : (b : ℕ) → 1 ≤ b → b < num_msg → parse_message_id b ≡ some b
unfolding parse_message_id char_of ltb_ℤ
parse_message_id_lem b lo hi = ground arith

pub parse_message_id_bad : (b : ℕ) → b < 256 → (b ≡ 0) ⊎ (num_msg ≤ b) → parse_message_id b ≡ none
unfolding parse_message_id char_of ltb_ℤ
parse_message_id_bad b h (inl e) = ground arith
parse_message_id_bad b h (inr e) = ground arith
