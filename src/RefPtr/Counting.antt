-- ===== src/RefPtr/Counting.antt =====
-- ReferenceCounted.h: how many variables point to an object, and what reference and dereference do to a heap
-- whose counts are exact.
use openbookfs.Prelude.{
  ℕ, zero, suc, ◌+◌, ◌-◌, ◌≤◌, ◌<◌, ◌≡◌, refl, sym, ap, ◌∙◌, inl, inr, false, if◌then◌else◌, ◌==◌,
  leb, List, [], ◌∷◌, ◌++◌, Option, none, some, get_elem?, set, length, arith, ==_iff, Bool-cases,
}
use openbookfs.RefPtr.{Heap, update, reference, release}

abbrev pub weight : Option ℕ → ℕ → ℕ
weight none o = 0
weight (some q) o = if q == o then 1 else 0

-- The number of variables that point to an object.
abbrev pub count : ℕ → List (Option ℕ) → ℕ
count o [] = 0
count o (p ∷ ps) = weight p o + count o ps

-- An object is there as long as a variable points to it, and it has their number.
abbrev pub expected : ℕ → Option ℕ
expected zero = none
expected (suc n) = some (suc n)

abbrev pub Points : Option ℕ → (ℕ → ℕ) → Type 0
Points none c = Unit
Points (some o) c = 1 ≤ c o

pub count-append :
    (o : ℕ) (ps : List (Option ℕ)) (p : Option ℕ) → count o (ps ++ p ∷ []) ≡ count o ps + weight p o
count-append o [] p = omega arith
count-append o (q ∷ ps) p = let ih = count-append o ps p in omega arith

none_ne_some : {A : Type 0} (a : A) → none ≡ some a → ⊥
none_ne_some a e = cc

some_eq : {A : Type 0} (a b : A) → some a ≡ some b → a ≡ b
some_eq a b e = cc

pub count-set :
    (o : ℕ) (ps : List (Option ℕ)) (i : ℕ) (p q : Option ℕ)
    → get_elem? ps i ≡ some q
    → count o (set ps i p) + weight q o ≡ count o ps + weight p o
count-set o [] i p q e = absurd (none_ne_some q e)
count-set o (r ∷ ps) zero p q e =
    let w = ap (λ (x : Option ℕ). weight x o) (some_eq r q e) in omega arith
count-set o (r ∷ ps) (suc i) p q e = let ih = count-set o ps i p q e in omega arith

pub get_elem?-some :
    (ps : List (Option ℕ)) (i : ℕ) → i < length ps → (q : Option ℕ) × (get_elem? ps i ≡ some q)
get_elem?-some [] i lt = absurd (omega arith)
get_elem?-some (p ∷ ps) zero lt = (p, refl)
get_elem?-some (p ∷ ps) (suc i) lt = get_elem?-some ps i (omega arith)

pub weight_self : (o : ℕ) → weight (some o) o ≡ 1
weight_self o = rw ((==_iff o o).1 refl) refl

pub weight_other : (o q : ℕ) → (o == q) ≡ false → weight (some q) o ≡ 0
weight_other o q h = ground arith

-- What a variable points to is counted.
pub Points-get_elem? :
    (ps : List (Option ℕ)) (i : ℕ) (p : Option ℕ)
    → get_elem? ps i ≡ some p
    → Points p (λ o. count o ps)
Points-get_elem? ps i none e = tt
Points-get_elem? ps i (some o) e =
    let h = count-set o ps i none (some o) e in let w = weight_self o in omega arith

pub weight_zero : (p : Option ℕ) (c : ℕ → ℕ) (o : ℕ) → Points p c → c o ≡ 0 → weight p o ≡ 0
weight_zero none c o h z = refl
weight_zero (some q) c o h z = elim (Bool-cases (q == o)) [
  | inl e ↦ let same = ap c ((==_iff q o).0 e) in absurd (omega arith)
  | inr e ↦ rw (e) refl
]

pub expected_pos : (n : ℕ) → 1 ≤ n → expected n ≡ some n
expected_pos zero h = absurd (omega arith)
expected_pos (suc n) h = refl

expected_less : (n : ℕ) → (if leb n 0 then none else some n) ≡ expected n
expected_less zero = refl
expected_less (suc n) = rw (more) refl
  where
    more : leb (suc n) 0 ≡ false
    more = ground arith

-- A count is changed for one object.
pub update_lem :
    (f : ℕ → Option ℕ) (c d : ℕ → ℕ) (q : ℕ) (v : Option ℕ)
    → ((o : ℕ) → f o ≡ expected (c o))
    → ((o : ℕ) → (o == q) ≡ false → c o ≡ d o)
    → v ≡ expected (d q)
    → (o : ℕ) → update f q v o ≡ expected (d o)
update_lem f c d q v exact else_same here o = elim (Bool-cases (o == q)) [
  | inl s ↦ rw (s) (here ∙ ap (λ (x : ℕ). expected (d x)) (sym ((==_iff o q).0 s)))
  | inr s ↦ rw (s) (exact o ∙ ap expected (else_same o s))
]

pub reference_lem :
    (p : Option ℕ) (c : ℕ → ℕ) (h : Heap)
    → ((o : ℕ) → h.counts o ≡ expected (c o))
    → Points p c
    → (f : ℕ → Option ℕ) × (reference p h ≡ some (record h { counts = f }))
      × ((o : ℕ) → f o ≡ expected (c o + weight p o))
unfolding reference
reference_lem none c h exact there = (h.counts, refl, λ o. exact o ∙ ap expected (omega arith))
reference_lem (some q) c h exact there =
    let e = exact q ∙ expected_pos (c q) there in
    let one = weight_self q in
    (
      update h.counts q (some (suc (c q))),
      rw (e, reference) refl,
      update_lem h.counts c (λ o. c o + weight (some q) o) q (some (suc (c q))) exact
          (λ o s. let w = weight_other o q s in omega arith)
          (let more : suc (c q) ≡ c q + weight (some q) q = omega arith in ap expected more),
    )

pub release_lem :
    (p : Option ℕ) (c : ℕ → ℕ) (h : Heap)
    → ((o : ℕ) → h.counts o ≡ expected (c o))
    → Points p c
    → (f : ℕ → Option ℕ) × (release p h ≡ some (record h { counts = f }))
      × ((o : ℕ) → f o ≡ expected (c o - weight p o))
unfolding release
release_lem none c h exact there = (h.counts, refl, λ o. exact o ∙ ap expected (omega arith))
release_lem (some q) c h exact there =
    let e = exact q ∙ expected_pos (c q) there in
    let one = weight_self q in
    let left = if leb (c q - 1) 0 then none else some (c q - 1) in
    (
      update h.counts q left,
      rw (e, release) refl,
      update_lem h.counts c (λ o. c o - weight (some q) o) q left exact
          (λ o s. let w = weight_other o q s in omega arith)
          (expected_less (c q - 1) ∙ ap expected (omega arith)),
    )
