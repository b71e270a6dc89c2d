-- ===== src/RefPtr.antt =====
-- ReferenceCounted.h: objects that count the pointers to them. A variable of type RefPtr is a place in the
-- list of variables, and an object is a number; an object that is deleted has no count. Where an object is
-- used that is not there, there is no result.
pub mod Counting
pub mod Sharing
use openbookfs.Prelude.{
  ℕ, zero, suc, ◌+◌, ◌-◌, Bool, true, false, if◌then◌else◌, ◌==◌, leb, List, [], ◌∷◌, ◌++◌, Option,
  none, some, get_elem?, set,
}

-- The variables with their `m_ptr`, the counts of the objects, and the place of the next object.
pub record Heap : Type 0 where
  pub pointers : List (Option ℕ)
  pub counts : ℕ → Option ℕ
  pub next : ℕ

abbrev pub update : (ℕ → Option ℕ) → ℕ → Option ℕ → ℕ → Option ℕ
update f o c k = if k == o then c else f k

-- `m_ptr` of a variable; a variable that is not there has none.
abbrev pub pointer : ℕ → Heap → Option ℕ
pointer i h = elim (get_elem? h.pointers i) [ none ↦ none | some p ↦ p ]

-- RefPtr::reference, for what the variable points to.
unfoldable pub reference : Option ℕ → Heap → Option Heap
reference none h = some h
reference (some o) h = elim (h.counts o) [
  | none ↦ none
  | some n ↦ some (record h { counts = update h.counts o (some (suc n)) })
]

-- `if( m_ptr->dereference() ) delete m_ptr;`
unfoldable pub release : Option ℕ → Heap → Option Heap
release none h = some h
release (some o) h = elim (h.counts o) [
  | none ↦ none
  | some n ↦
      some (record h { counts = update h.counts o (if leb (n - 1) 0 then none else some (n - 1)) })
]

abbrev pub point : ℕ → Option ℕ → Heap → Heap
point i p h = record h { pointers = set h.pointers i p }

abbrev pub and_then : Option Heap → (Heap → Option Heap) → Option Heap
and_then none f = none
and_then (some h) f = f h

-- RefPtr::dereference, which clear and the destructor call.
unfoldable pub dereference : ℕ → Heap → Option Heap
unfolding release
dereference i h = and_then (release (pointer i h) h) λ h. some (point i none h)

-- A new variable that points to what another one points to, the constructor that copies.
unfoldable pub copy : ℕ → Heap → Option Heap
unfolding reference
copy i h = let p = pointer i h in reference p (record h { pointers = h.pointers ++ p ∷ [] })

-- A new object, with a new variable that points to it.
unfoldable pub create : Heap → Option Heap
unfolding reference
create h = reference (some h.next) (record h {
  pointers = h.pointers ++ some h.next ∷ [];
  counts = update h.counts h.next (some 0);
  next = suc h.next;
})

-- RefPtr::operator=
unfoldable pub assign : ℕ → ℕ → Heap → Option Heap
unfolding dereference reference
assign i j h = and_then (dereference i h) λ h. let p = pointer j h in reference p (point i p h)

pub data Step : Type 0 where
  creates : Step
  copies clears : ℕ → Step
  assigns : ℕ → ℕ → Step

abbrev pub step : Step → Heap → Option Heap
step creates h = create h
step (copies i) h = copy i h
step (clears i) h = dereference i h
step (assigns i j) h = assign i j h

unfoldable pub run : List Step → Heap → Option Heap
run [] h = some h
run (s ∷ ss) h = and_then (step s h) (run ss)
