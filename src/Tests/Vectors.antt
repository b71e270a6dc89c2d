-- ===== src/Tests/Vectors.antt =====
-- VersionVector.cpp on small vectors.
use openbookfs.Prelude.{ℤ, pos, ◌≡◌, refl, ◌↔◌, true, [], ◌∷◌, ◌<ℤ◌, ◌≤ℤ◌, ◌+ℤ◌, ltb_ℤ, eqb_ℤ}
use openbookfs.VersionVector.{
  VersionVector, get, assign, less, less_equal, greater_equal, equal, not_equal,
}
use openbookfs.VersionVector.Pointwise.{less_iff}

program : Unit {0}
unfolding assign get less less_equal equal not_equal greater_equal ltb_ℤ eqb_ℤ ◌+ℤ◌
program = tt

-- This machine has written twice, peer 3 once.
abbrev older : VersionVector
older = (pos 0, pos 2) ∷ (pos 3, pos 1) ∷ []

abbrev newer : VersionVector
newer = (pos 0, pos 2) ∷ (pos 3, pos 4) ∷ []

abbrev newest : VersionVector
newest = (pos 0, pos 3) ∷ (pos 3, pos 4) ∷ []

-- Peer 7 has written, and this machine once less.
abbrev elsewhere : VersionVector
elsewhere = (pos 0, pos 1) ∷ (pos 3, pos 1) ∷ (pos 7, pos 1) ∷ []

assign_order : assign (pos 5) (pos 9) older ≡ (pos 0, pos 2) ∷ (pos 3, pos 1) ∷ (pos 5, pos 9) ∷ []
unfolding program
assign_order = refl

zero_is_missing : equal ((pos 4, pos 0) ∷ []) [] ≡ true
unfolding program
zero_is_missing = refl

older-newer : less older newer ≡ true
unfolding program
older-newer = refl

newer-newest : less newer newest ≡ true
unfolding program
newer-newest = refl

less_iff_example :
    (less older newer ≡ true)
    ↔ (((q : ℤ) → get older q ≤ℤ get newer q) × ((q : ℤ) × (get older q <ℤ get newer q)))
less_iff_example = less_iff older newer
