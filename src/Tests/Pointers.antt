-- ===== src/Tests/Pointers.antt =====
-- ReferenceCounted.h on two objects and three variables.
use openbookfs.Prelude.{ℕ, ◌≡◌, refl, List, [], ◌∷◌, Option, none, some, arith}
use openbookfs.RefPtr.{
  Heap, reference, release, dereference, copy, create, assign, Step, creates, copies, clears,
  assigns, run,
}
use openbookfs.RefPtr.Sharing.{IsExact, run-IsExact}

program : Unit {0}
unfolding reference release dereference copy create assign run
program = tt

abbrev no_pointer : Heap
no_pointer = record { pointers = []; counts = λ o. none; next = 0 }

no_pointer-IsExact : IsExact no_pointer
no_pointer-IsExact = record { exact = λ o. refl; fresh = λ o le. refl }

abbrev pointers_of : Option Heap → Option (List (Option ℕ))
pointers_of none = none
pointers_of (some h) = some h.pointers

abbrev steps : List Step
steps = creates ∷ copies 0 ∷ creates ∷ assigns 0 2 ∷ clears 1 ∷ []

-- The first object has gone with its second pointer.
run_pointers : pointers_of (run steps no_pointer) ≡ some (some 1 ∷ none ∷ some 1 ∷ [])
unfolding program
run_pointers = refl

-- A variable that is assigned to itself loses its object.
self_assigned : pointers_of (run (creates ∷ assigns 0 0 ∷ []) no_pointer) ≡ some (none ∷ [])
unfolding program
self_assigned = refl

run-IsExact_example : (k : Heap) × (run steps no_pointer ≡ some k) × IsExact k
run-IsExact_example =
    run-IsExact steps no_pointer no_pointer-IsExact
      (omega arith, (omega arith, omega arith, (omega arith, tt)))
