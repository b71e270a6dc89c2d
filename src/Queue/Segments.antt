-- ===== src/Queue/Segments.antt =====
-- The nodes of a chain as a list of places with what they hold, and what writing a node does to it.
use openbookfs.Prelude.{
  suc, length, ℕ, ◌≡◌, ◌≢◌, refl, sym, ap, ◌∙◌, subst, List, [], ◌∷◌, ◌++◌, Option, some, ==_iff,
  ==_ne,
}
use openbookfs.Queue.Nodes.{Node, Heap, write, with_next, with_prev}

pub some_eq : (a b : ℕ) → some a ≡ some b → a ≡ b
some_eq a b k = cc

module _ {T : Type 0} where
  -- the first place of the list, or else what follows it; the last one, or else what stands before
  abbrev pub head_or : List (ℕ × T) → Option ℕ → Option ℕ
  head_or [] q = q
  head_or (x ∷ xs) q = some x.0

  abbrev pub last_or : Option ℕ → List (ℕ × T) → Option ℕ
  last_or p [] = p
  last_or p (x ∷ xs) = last_or (some x.0) xs

  -- These nodes in this order, linked in both directions, between p and q.
  abbrev pub Segment : Heap T → Option ℕ → List (ℕ × T) → Option ℕ → Type 0
  Segment h p [] q = Unit {0}
  Segment h p (x ∷ xs) q =
      (h x.0 ≡ record { datum = x.1; next = head_or xs q; prev = p }) × Segment h (some x.0) xs q

  abbrev pub Fresh : ℕ → List (ℕ × T) → Type 0
  Fresh n [] = Unit {0}
  Fresh n (x ∷ xs) = (n ≢ x.0) × Fresh n xs

  abbrev pub AllDistinct : List (ℕ × T) → Type 0
  AllDistinct [] = Unit {0}
  AllDistinct (x ∷ xs) = Fresh x.0 xs × AllDistinct xs

  pub write_self : (h : Heap T) (n : ℕ) (v : Node T) → write h n v n ≡ v
  unfolding write
  write_self h n v = rw ((==_iff n n).1 refl) refl

  pub write_ne : (h : Heap T) {n i : ℕ} (v : Node T) → n ≢ i → write h n v i ≡ h i
  unfolding write
  write_ne h {n} {i} v e = rw (==_ne n i e) refl

  pub Fresh-append_left : (n : ℕ) (xs ys : List (ℕ × T)) → Fresh n (xs ++ ys) → Fresh n xs
  Fresh-append_left n [] ys f = tt
  Fresh-append_left n (x ∷ xs) ys f = (f.0, Fresh-append_left n xs ys f.1)

  pub Fresh-append_right : (n : ℕ) (xs ys : List (ℕ × T)) → Fresh n (xs ++ ys) → Fresh n ys
  Fresh-append_right n [] ys f = f
  Fresh-append_right n (x ∷ xs) ys f = Fresh-append_right n xs ys f.1

  pub Fresh-append : (n : ℕ) (xs ys : List (ℕ × T)) → Fresh n xs → Fresh n ys → Fresh n (xs ++ ys)
  Fresh-append n [] ys f g = g
  Fresh-append n (x ∷ xs) ys f g = (f.0, Fresh-append n xs ys f.1 g)

  pub AllDistinct-append_left : (xs ys : List (ℕ × T)) → AllDistinct (xs ++ ys) → AllDistinct xs
  AllDistinct-append_left [] ys d = tt
  AllDistinct-append_left (x ∷ xs) ys d =
      (Fresh-append_left x.0 xs ys d.0, AllDistinct-append_left xs ys d.1)

  pub AllDistinct-append_right : (xs ys : List (ℕ × T)) → AllDistinct (xs ++ ys) → AllDistinct ys
  AllDistinct-append_right [] ys d = d
  AllDistinct-append_right (x ∷ xs) ys d = AllDistinct-append_right xs ys d.1

  pub AllDistinct-append :
      (xs : List (ℕ × T)) (n : ℕ × T) → AllDistinct xs → Fresh n.0 xs → AllDistinct (xs ++ (n ∷ []))
  AllDistinct-append [] n d f = (tt, tt)
  AllDistinct-append (x ∷ xs) n d f =
      (Fresh-append x.0 xs (n ∷ []) d.0 ((λ e. f.0 (sym e)), tt), AllDistinct-append xs n d.1 f.1)

  -- A node moves from the front to the end.
  pub AllDistinct-rotate :
      (n m : ℕ × T) (xs : List (ℕ × T))
      → n.0 ≡ m.0
      → AllDistinct (n ∷ xs)
      → AllDistinct (xs ++ (m ∷ []))
  AllDistinct-rotate n m xs e d = AllDistinct-append xs m d.1 (subst (λ i. Fresh i xs) e d.0)

  -- Places outside the list may change, and the list stays.
  abbrev pub Agrees : Heap T → Heap T → List (ℕ × T) → Type 0
  Agrees g h [] = Unit {0}
  Agrees g h (x ∷ xs) = (g x.0 ≡ h x.0) × Agrees g h xs

  pub Segment-Agrees :
      (g h : Heap T) (p q : Option ℕ) (xs : List (ℕ × T))
      → Agrees g h xs
      → Segment h p xs q
      → Segment g p xs q
  Segment-Agrees g h p q [] a s = tt
  Segment-Agrees g h p q (x ∷ xs) a s = (a.0 ∙ s.0, Segment-Agrees g h (some x.0) q xs a.1 s.1)

  pub Agrees-write :
      (h : Heap T) (n : ℕ) (v : Node T) (xs : List (ℕ × T)) → Fresh n xs → Agrees (write h n v) h xs
  Agrees-write h n v [] f = tt
  Agrees-write h n v (x ∷ xs) f = (write_ne h v f.0, Agrees-write h n v xs f.1)

  pub Segment-write :
      (h : Heap T) (n : ℕ) (v : Node T) (p q : Option ℕ) (xs : List (ℕ × T))
      → Fresh n xs
      → Segment h p xs q
      → Segment (write h n v) p xs q
  Segment-write h n v p q xs f s = Segment-Agrees (write h n v) h p q xs (Agrees-write h n v xs f) s

  -- A new successor of the last node.
  pub Fresh-last_or :
      (n : ℕ) (x : ℕ × T) (xs : List (ℕ × T)) (l : ℕ)
      → Fresh n (x ∷ xs)
      → last_or (some x.0) xs ≡ some l
      → l ≢ n
  Fresh-last_or n x [] l f e = λ k. f.0 cc
  Fresh-last_or n x (y ∷ xs) l f e = Fresh-last_or n y xs l f.1 e

  pub Segment-with_next :
      (h : Heap T) (l : ℕ) (p q r : Option ℕ) (x : ℕ × T) (xs : List (ℕ × T))
      → AllDistinct (x ∷ xs)
      → last_or (some x.0) xs ≡ some l
      → Segment h p (x ∷ xs) q
      → Segment (write h l (with_next r (h l))) p (x ∷ xs) r
  Segment-with_next h l p q r x [] d e s = (
    subst (λ k. write h k (with_next r (h k)) x.0 ≡ record { datum = x.1; next = r; prev = p })
        (some_eq x.0 l e) (write_self h x.0 (with_next r (h x.0)) ∙ ap (with_next r) s.0),
    tt,
  )
  Segment-with_next h l p q r x (y ∷ xs) d e s = (
    write_ne h (with_next r (h l)) (Fresh-last_or x.0 y xs l d.0 e) ∙ s.0,
    Segment-with_next h l (some x.0) q r y xs d.1 e s.1,
  )

  pub Segment-with_prev :
      (h : Heap T) (p q r : Option ℕ) (x : ℕ × T) (xs : List (ℕ × T))
      → AllDistinct (x ∷ xs)
      → Segment h p (x ∷ xs) q
      → Segment (write h x.0 (with_prev r (h x.0))) r (x ∷ xs) q
  Segment-with_prev h p q r x xs d s = (
    write_self h x.0 (with_prev r (h x.0)) ∙ ap (with_prev r) s.0,
    Segment-write h x.0 (with_prev r (h x.0)) (some x.0) q xs d.0 s.1,
  )

  pub head_or_append :
      (xs ys : List (ℕ × T)) (q : Option ℕ) → head_or (xs ++ ys) q ≡ head_or xs (head_or ys q)
  head_or_append [] ys q = refl
  head_or_append (x ∷ xs) ys q = refl

  pub last_or_append :
      (p : Option ℕ) (xs : List (ℕ × T)) (n : ℕ × T) → last_or p (xs ++ (n ∷ [])) ≡ some n.0
  last_or_append p [] n = refl
  last_or_append p (x ∷ xs) n = last_or_append (some x.0) xs n

  pub last_or-some : (a : ℕ) (xs : List (ℕ × T)) → (l : ℕ) × (last_or (some a) xs ≡ some l)
  last_or-some a [] = (a, refl)
  last_or-some a (x ∷ xs) = last_or-some x.0 xs

  pub Segment-append :
      (h : Heap T) (p q : Option ℕ) (xs ys : List (ℕ × T))
      → Segment h p xs (head_or ys q)
      → Segment h (last_or p xs) ys q
      → Segment h p (xs ++ ys) q
  Segment-append h p q [] ys s t = t
  Segment-append h p q (x ∷ xs) ys s t = (
    s.0 ∙ ap (λ k. record { datum = x.1; next = k; prev = p }) (sym (head_or_append xs ys q)),
    Segment-append h (some x.0) q xs ys s.1 t,
  )

  pub Segment-append_left :
      (h : Heap T) (p q : Option ℕ) (xs ys : List (ℕ × T))
      → Segment h p (xs ++ ys) q
      → Segment h p xs (head_or ys q)
  Segment-append_left h p q [] ys s = tt
  Segment-append_left h p q (x ∷ xs) ys s = (
    s.0 ∙ ap (λ k. record { datum = x.1; next = k; prev = p }) (head_or_append xs ys q),
    Segment-append_left h (some x.0) q xs ys s.1,
  )

  pub Segment-append_right :
      (h : Heap T) (p q : Option ℕ) (xs ys : List (ℕ × T))
      → Segment h p (xs ++ ys) q
      → Segment h (last_or p xs) ys q
  Segment-append_right h p q [] ys s = s
  Segment-append_right h p q (x ∷ xs) ys s = Segment-append_right h (some x.0) q xs ys s.1

  -- Nothing follows the last node.
  pub Segment-last :
      (h : Heap T) (p q : Option ℕ) (x : ℕ × T) (xs : List (ℕ × T)) (l : ℕ)
      → last_or (some x.0) xs ≡ some l
      → Segment h p (x ∷ xs) q
      → (h l).next ≡ q
  Segment-last h p q x [] l e s =
      subst (λ k. (h k).next ≡ q) (some_eq x.0 l e) (ap (λ v. v.next) s.0)
  Segment-last h p q x (y ∷ xs) l e s = Segment-last h (some x.0) q y xs l e s.1

  -- Two lists without a place in common.
  abbrev pub Apart : List (ℕ × T) → List (ℕ × T) → Type 0
  Apart [] ys = Unit {0}
  Apart (x ∷ xs) ys = Fresh x.0 ys × Apart xs ys

  pub Apart-last :
      (x : ℕ × T) (xs ys : List (ℕ × T)) (l : ℕ)
      → last_or (some x.0) xs ≡ some l
      → Apart (x ∷ xs) ys
      → Fresh l ys
  Apart-last x [] ys l e a = subst (λ k. Fresh k ys) (some_eq x.0 l e) a.0
  Apart-last x (y ∷ xs) ys l e a = Apart-last y xs ys l e a.1

  pub AllDistinct-Apart : (xs ys : List (ℕ × T)) → AllDistinct (xs ++ ys) → Apart xs ys
  AllDistinct-Apart [] ys d = tt
  AllDistinct-Apart (x ∷ xs) ys d = (Fresh-append_right x.0 xs ys d.0, AllDistinct-Apart xs ys d.1)

  pub Agrees-trans :
      (f g h : Heap T) (xs : List (ℕ × T)) → Agrees f g xs → Agrees g h xs → Agrees f h xs
  Agrees-trans f g h [] a b = tt
  Agrees-trans f g h (x ∷ xs) a b = (a.0 ∙ b.0, Agrees-trans f g h xs a.1 b.1)

  pub Agrees-refl : (h : Heap T) (xs : List (ℕ × T)) → Agrees h h xs
  Agrees-refl h [] = tt
  Agrees-refl h (x ∷ xs) = (refl, Agrees-refl h xs)

  Fresh-Apart : (n : ℕ × T) (xs ys : List (ℕ × T)) → Apart xs (n ∷ ys) → Fresh n.0 xs × Apart xs ys
  Fresh-Apart n [] ys a = (tt, tt)
  Fresh-Apart n (x ∷ xs) ys a =
      let rest = Fresh-Apart n xs ys a.1 in (((λ e. a.0.0 (sym e)), rest.0), (a.0.1, rest.1))

  pub Apart-sym : (xs ys : List (ℕ × T)) → Apart xs ys → Apart ys xs
  Apart-sym xs [] a = tt
  Apart-sym xs (y ∷ ys) a = let split = Fresh-Apart y xs ys a in (split.0, Apart-sym xs ys split.1)

  -- what the nodes hold
  abbrev pub contents : List (ℕ × T) → List T
  contents [] = []
  contents (x ∷ xs) = x.1 ∷ contents xs

  pub contents-append :
      (xs : List (ℕ × T)) (n : ℕ × T) → contents (xs ++ (n ∷ [])) ≡ contents xs ++ (n.1 ∷ [])
  contents-append [] n = refl
  contents-append (x ∷ xs) n = ap (λ l. x.1 ∷ l) (contents-append xs n)

  pub length-contents : (xs : List (ℕ × T)) → length (contents xs) ≡ length xs
  length-contents [] = refl
  length-contents (x ∷ xs) = ap suc (length-contents xs)
