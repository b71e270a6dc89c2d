-- ===== src/RefPtr/Sharing.antt =====
-- ReferenceCounted.h: however the pointers are made, copied, assigned and cleared, an object is there exactly as
-- long as one of them points to it.
use openbookfs.Prelude.{
  ℕ, suc, ◌+◌, ◌≤◌, ◌<◌, ◌≡◌, refl, sym, ap, subst, ◌∙◌, List, [], ◌∷◌, ◌++◌, Option, none, some,
  get_elem?, set, length, length-set, length-append, get_elem?-set_self, ==_iff, Bool-cases, ◌==◌,
  arith, inl, inr,
}
use openbookfs.RefPtr.{
  Heap, update, pointer, point, reference, release, dereference, copy, create, assign, Step,
  creates, copies, clears, assigns, run, and_then,
}
use openbookfs.RefPtr.Counting.{
  weight, count, expected, Points, count-append, count-set, get_elem?-some, Points-get_elem?,
  weight_zero, weight_self, reference_lem, release_lem, weight_other, update_lem,
}

-- Each object has as many counts as variables, none if there are none, and new objects are new.
pub record IsExact (h : Heap) : Type 0 where
  pub exact : (o : ℕ) → h.counts o ≡ expected (count o h.pointers)
  pub fresh : (o : ℕ) → h.next ≤ o → count o h.pointers ≡ 0

-- The steps use variables that are there.
abbrev pub InScope : ℕ → List Step → Type 0
InScope n [] = Unit
InScope n (creates ∷ ss) = InScope (suc n) ss
InScope n (copies i ∷ ss) = (i < n) × InScope (suc n) ss
InScope n (clears i ∷ ss) = (i < n) × InScope n ss
InScope n (assigns i j ∷ ss) = (i < n) × (j < n) × InScope n ss

pointer_lem : (i : ℕ) (h : Heap) (p : Option ℕ) → get_elem? h.pointers i ≡ some p → pointer i h ≡ p
pointer_lem i h p e = rw (e, pointer) refl

-- A variable that is added to exact counts, or changed in them.
reference-IsExact :
    (p : Option ℕ) (ps : List (Option ℕ)) (h g : Heap)
    → IsExact h
    → Points p (λ o. count o h.pointers)
    → ((o : ℕ) → count o ps ≡ count o h.pointers + weight p o)
    → g ≡ record h { pointers = ps }
    → (k : Heap) × (reference p g ≡ some k) × IsExact k × (k.pointers ≡ ps)
reference-IsExact p ps h g ok there more same =
    let changed : Heap = record h { pointers = ps } in
    let (f, e, now) = reference_lem p (λ o. count o h.pointers) changed ok.exact there in
    (
      record changed { counts = f },
      subst (λ (x : Heap). reference p x ≡ some (record changed { counts = f })) (sym same) e,
      record {
        exact = λ o. now o ∙ ap expected (sym (more o));
        fresh = λ o le.
            more o
            ∙ (let z = ok.fresh o le in
                let w = weight_zero p (λ x. count x h.pointers) o there z in omega arith);
      },
      refl,
    )

copy-IsExact :
    (i : ℕ) (h : Heap)
    → IsExact h
    → i < length h.pointers
    → (k : Heap) × (copy i h ≡ some k) × IsExact k × (length k.pointers ≡ suc (length h.pointers))
unfolding copy
copy-IsExact i h ok lt =
    let (p, e) = get_elem?-some h.pointers i lt in
    let (k, r, exact, long) =
      reference-IsExact p (h.pointers ++ p ∷ []) h (record h { pointers = h.pointers ++ p ∷ [] }) ok
        (Points-get_elem? h.pointers i p e) (λ o. count-append o h.pointers p) refl in
    (
      k,
      subst (λ (q : Option ℕ). reference q (record h { pointers = h.pointers ++ q ∷ [] }) ≡ some k)
          (sym (pointer_lem i h p e)) r,
      exact,
      ap (λ (l : List (Option ℕ)). length l) long ∙ length-append h.pointers (p ∷ []) ∙ omega arith,
    )

dereference-IsExact :
    (i : ℕ) (h : Heap)
    → IsExact h
    → i < length h.pointers
    → (k : Heap) × (dereference i h ≡ some k) × IsExact k × (k.pointers ≡ set h.pointers i none)
unfolding dereference
dereference-IsExact i h ok lt =
    let (p, e) = get_elem?-some h.pointers i lt in
    let (f, r, now) =
      release_lem p (λ o. count o h.pointers) h ok.exact (Points-get_elem? h.pointers i p e) in
    let k = point i none (record h { counts = f }) in
    (
      k,
      subst (λ (q : Option ℕ). and_then (release q h) (λ x. some (point i none x)) ≡ some k)
          (sym (pointer_lem i h p e))
          (ap (λ (x : Option Heap). and_then x (λ x. some (point i none x))) r),
      record {
        exact = λ o. now o ∙ ap expected (let c = count-set o h.pointers i none p e in omega arith);
        fresh = λ o le.
            (let c = count-set o h.pointers i none p e in let z = ok.fresh o le in omega arith);
      },
      refl,
    )

assign-IsExact :
    (i j : ℕ) (h : Heap)
    → IsExact h
    → i < length h.pointers
    → j < length h.pointers
    → (k : Heap) × (assign i j h ≡ some k) × IsExact k × (length k.pointers ≡ length h.pointers)
unfolding assign
assign-IsExact i j h ok lt lt' =
    let (m, d, exact, shape) = dereference-IsExact i h ok lt in
    let long : length m.pointers ≡ length h.pointers =
      ap (λ (l : List (Option ℕ)). length l) shape ∙ length-set h.pointers i none in
    let (p, e) = get_elem?-some m.pointers j (omega arith) in
    let empty : get_elem? m.pointers i ≡ some none =
      ap (λ (l : List (Option ℕ)). get_elem? l i) shape ∙ get_elem?-set_self h.pointers i none lt in
    let (k, r, exact', shape') =
      reference-IsExact p (set m.pointers i p) m (point i p m) exact
        (Points-get_elem? m.pointers j p e)
        (λ o. let c = count-set o m.pointers i p none empty in omega arith) refl in
    (
      k,
      ap (λ (x : Option Heap). and_then x (λ x. reference (pointer j x) (point i (pointer j x) x)))
            d
          ∙ subst (λ (q : Option ℕ). reference q (point i q m) ≡ some k) (sym (pointer_lem j m p e))
              r,
      exact',
      ap (λ (l : List (Option ℕ)). length l) shape' ∙ length-set m.pointers i p ∙ long,
    )

update_twice :
    (f : ℕ → Option ℕ) (q : ℕ) (a b : Option ℕ) (o : ℕ)
    → update (update f q a) q b o ≡ update f q b o
update_twice f q a b o = elim (Bool-cases (o == q)) [ inl s ↦ rw (s) refl | inr s ↦ rw (s) refl ]

create-IsExact :
    (h : Heap)
    → IsExact h
    → (k : Heap) × (create h ≡ some k) × IsExact k × (length k.pointers ≡ suc (length h.pointers))
unfolding create reference
create-IsExact h ok =
    let n = h.next in
    let ps : List (Option ℕ) = h.pointers ++ some n ∷ [] in
    let base = update h.counts n (some 0) in
    let e : base n ≡ some 0 = rw ((==_iff n n).1 refl) refl in
    let none_yet = ok.fresh n (omega arith) in
    let one : 1 ≡ count n ps =
      (let c = count-append n h.pointers (some n) in let w = weight_self n in omega arith) in
    (
      record { pointers = ps; counts = update base n (some 1); next = suc n },
      rw (e, reference) refl,
      record {
        exact = λ o.
            update_twice h.counts n (some 0) (some 1) o
            ∙ update_lem h.counts (λ x. count x h.pointers) (λ x. count x ps) n (some 1) ok.exact
                (λ x s.
                  let c = count-append x h.pointers (some n) in
                  let w = weight_other x n s in omega arith)
                (ap expected one) o;
        fresh = λ o le.
            count-append o h.pointers (some n)
            ∙ (let z = ok.fresh o (omega arith) in
                let w = weight_other o n (ground arith) in omega arith);
      },
      length-append h.pointers (some n ∷ []) ∙ omega arith,
    )

-- Steps on variables that are there end, use no object that is deleted, and leave each object with the number
-- of the variables that point to it; the objects that are there are those to which a variable points.
pub run-IsExact :
    (ss : List Step) (h : Heap)
    → IsExact h
    → InScope (length h.pointers) ss
    → (k : Heap) × (run ss h ≡ some k) × IsExact k
unfolding run
run-IsExact [] h ok scope = (h, refl, ok)
run-IsExact (creates ∷ ss) h ok scope =
    let (m, e, exact, long) = create-IsExact h ok in
    let (k, r, done) = run-IsExact ss m exact (subst (λ (n : ℕ). InScope n ss) (sym long) scope) in
    (k, ap (λ (x : Option Heap). and_then x (run ss)) e ∙ r, done)
run-IsExact (copies i ∷ ss) h ok (lt, scope) =
    let (m, e, exact, long) = copy-IsExact i h ok lt in
    let (k, r, done) = run-IsExact ss m exact (subst (λ (n : ℕ). InScope n ss) (sym long) scope) in
    (k, ap (λ (x : Option Heap). and_then x (run ss)) e ∙ r, done)
run-IsExact (clears i ∷ ss) h ok (lt, scope) =
    let (m, e, exact, shape) = dereference-IsExact i h ok lt in
    let long = ap (λ (l : List (Option ℕ)). length l) shape ∙ length-set h.pointers i none in
    let (k, r, done) = run-IsExact ss m exact (subst (λ (n : ℕ). InScope n ss) (sym long) scope) in
    (k, ap (λ (x : Option Heap). and_then x (run ss)) e ∙ r, done)
run-IsExact (assigns i j ∷ ss) h ok (lt, lt', scope) =
    let (m, e, exact, long) = assign-IsExact i j h ok lt lt' in
    let (k, r, done) = run-IsExact ss m exact (subst (λ (n : ℕ). InScope n ss) (sym long) scope) in
    (k, ap (λ (x : Option Heap). and_then x (run ss)) e ∙ r, done)
