-- ===== src/FileMap/Handles.antt =====
-- The free handles are exactly the slots without a file, each of them once.
use openbookfs.Prelude.{
  ◌↔◌, length-replicate, ℤ, ℕ, zero, suc, ◌<◌, ◌≡◌, refl, sym, subst, ◌∙◌, ◌≢◌, ◌⊎◌, inl, inr, List,
  [], ◌∷◌, Option, none, some, arith, get_elem?, set, get_elem?-set_self, get_elem?-set_ne, Elem,
  length, replicate,
}
use openbookfs.Database.{FilePath}
use openbookfs.FileMap.{
  FileContext, FileMap, create_context, register_file, take_handle, unregister_file, descending,
  make,
}

-- Every listed handle has an empty slot, and stands in the list once.
abbrev pub AllEmpty : List ℕ → List (Option FileContext) → Type 0
AllEmpty [] vec = Unit {0}
AllEmpty (fd ∷ fds) vec = (get_elem? vec fd ≡ some none) × (¬ Elem fd fds) × AllEmpty fds vec

pub record IsStore (m : FileMap) : Type 0 where
  pub empty : AllEmpty m.free_store m.file_vec
  pub complete : (i : ℕ) → get_elem? m.file_vec i ≡ some none → Elem i m.free_store

pub in_range :
    (vec : List (Option FileContext)) (i : ℕ) (o : Option FileContext)
    → get_elem? vec i ≡ some o
    → i < length vec
in_range [] i o h = absurd cc
in_range (x ∷ xs) zero o h = omega arith
in_range (x ∷ xs) (suc i) o h = omega (arith, in_range xs i o h)

AllEmpty-set :
    (fd : ℕ) (o : Option FileContext) (fds : List ℕ) (vec : List (Option FileContext))
    → ¬ Elem fd fds
    → AllEmpty fds vec
    → AllEmpty fds (set vec fd o)
AllEmpty-set fd o [] vec out a = tt
AllEmpty-set fd o (f ∷ fs) vec out a = (
  get_elem?-set_ne vec o (λ e. out (inl e)) ∙ a.0,
  a.1,
  AllEmpty-set fd o fs vec (λ e. out (inr e)) a.2,
)

not_both :
    (vec : List (Option FileContext)) (f : ℕ) (c : FileContext)
    → get_elem? vec f ≡ some none
    → ¬ (get_elem? vec f ≡ some (some c))
not_both vec f c g k = cc

occupied_out :
    (fd : ℕ) (c : FileContext) (fds : List ℕ) (vec : List (Option FileContext))
    → get_elem? vec fd ≡ some (some c)
    → AllEmpty fds vec
    → ¬ Elem fd fds
occupied_out fd c [] vec h a e = absurd e
occupied_out fd c (f ∷ fs) vec h a (inl e) =
    not_both vec f c a.0 (subst (λ q. get_elem? vec q ≡ some (some c)) e h)
occupied_out fd c (f ∷ fs) vec h a (inr e) = occupied_out fd c fs vec h a.2 e

same_set :
    (vec : List (Option FileContext)) (i fd : ℕ) (o slot : Option FileContext)
    → i ≢ fd
    → get_elem? (set vec fd o) i ≡ some slot
    → get_elem? vec i ≡ some slot
same_set vec i fd o slot ne h = sym (get_elem?-set_ne vec o (λ e. ne (sym e))) ∙ h

ℕ-same : (a b : ℕ) → (a ≡ b) ⊎ (a ≢ b)
ℕ-same a b = ground arith

-- What `registerFile` has done with the handle that it returns.
pub record Registration (path : FilePath) (os_fd : ℤ) (fd : ℕ) (m after : FileMap) : Type 0 where
  pub was_free : get_elem? m.file_vec fd ≡ some none
  pub rest : m.free_store ≡ fd ∷ after.free_store
  pub vec : after.file_vec ≡ set m.file_vec fd (some (create_context path os_fd))
  pub valid : IsStore after

-- Either all handles are in use, and none is given, or the one that is given was free.
abbrev pub Registers : FilePath → ℤ → FileMap → Option (ℕ × FileMap) → Type 0
Registers path os_fd m none = (i : ℕ) → get_elem? m.file_vec i ≢ some none
Registers path os_fd m (some (fd, after)) = Registration path os_fd fd m after

take_handle_lem :
    (path : FilePath) (os_fd : ℤ) (fds : List ℕ) (m : FileMap)
    → m.free_store ≡ fds
    → AllEmpty fds m.file_vec
    → ((i : ℕ) → get_elem? m.file_vec i ≡ some none → Elem i fds)
    → Registers path os_fd m (take_handle path os_fd fds m)
unfolding take_handle
take_handle_lem path os_fd [] m e a c = λ i h. c i h
take_handle_lem path os_fd (fd ∷ fds) m e a c =
    let used = some (create_context path os_fd) in
    record {
      was_free = a.0;
      rest = e;
      vec = refl;
      valid = record {
        empty = AllEmpty-set fd used fds m.file_vec a.1 a.2;
        complete = λ i h. elim (ℕ-same i fd) [
          | inl same ↦ absurd (
              not_both (set m.file_vec fd used) fd (create_context path os_fd)
                (subst (λ q. get_elem? (set m.file_vec fd used) q ≡ some none) same h)
                (get_elem?-set_self m.file_vec fd used (in_range m.file_vec fd none a.0)))
          | inr other ↦ not_head i fd fds other (c i (same_set m.file_vec i fd used none other h))
        ];
      };
    }
  where
    not_head : (i fd : ℕ) (fds : List ℕ) → i ≢ fd → Elem i (fd ∷ fds) → Elem i fds
    not_head i fd fds ne (inl e) = absurd (ne e)
    not_head i fd fds ne (inr e) = e

-- Registering a file gives a handle that had no file, and from then on it has this one; it fails only
-- if every handle has a file. The free handles stay exactly those without a file.
pub register_file_lem :
    (path : FilePath) (os_fd : ℤ) (m : FileMap)
    → IsStore m
    → Registers path os_fd m (register_file path os_fd m)
unfolding register_file
register_file_lem path os_fd m s = take_handle_lem path os_fd m.free_store m refl s.empty s.complete

-- A handle with a file can be given back, once; the free handles stay exactly those without a file.
pub unregister_file-IsStore :
    (fd : ℕ) (c : FileContext) (m : FileMap)
    → IsStore m
    → get_elem? m.file_vec fd ≡ some (some c)
    → IsStore (unregister_file fd m)
unfolding unregister_file
unregister_file-IsStore fd c m s opened =
    let out = occupied_out fd c m.free_store m.file_vec opened s.empty in
    record {
      empty = (
        get_elem?-set_self m.file_vec fd none (in_range m.file_vec fd (some c) opened),
        out,
        AllEmpty-set fd none m.free_store m.file_vec out s.empty,
      );
      complete = λ i h. elim (ℕ-same i fd) [
        | inl same ↦ inl same
        | inr other ↦ inr (s.complete i (same_set m.file_vec i fd none none other h))
      ];
    }

Elem-descending : (i n : ℕ) → Elem i (descending n) ↔ (i < n)
unfolding descending
Elem-descending i zero = (λ e. absurd e, λ h. absurd (omega arith))
Elem-descending i (suc n) = (
  λ e. elim e [ inl same ↦ omega arith | inr rest ↦ below ((Elem-descending i n).0 rest) ],
  λ h. elim (ℕ-same i n) [
    | inl same ↦ inl same
    | inr other ↦ inr ((Elem-descending i n).1 (omega arith))
  ],
)
  where
    below : i < n → i < suc n
    below h = omega arith

get_elem?-replicate :
    (size i : ℕ) → i < size → get_elem? (replicate {A = Option FileContext} size none) i ≡ some none
get_elem?-replicate zero i h = absurd (omega arith)
get_elem?-replicate (suc n) zero h = refl
get_elem?-replicate (suc n) (suc i) h = get_elem?-replicate n i (omega arith)

AllEmpty-descending : (n size : ℕ) → ¬ (size < n) → AllEmpty (descending n) (replicate size none)
unfolding descending
AllEmpty-descending zero size h = tt
AllEmpty-descending (suc n) size h = (
  get_elem?-replicate size n (omega arith),
  λ e. irrefl ((Elem-descending n n).0 e),
  AllEmpty-descending n size (omega arith),
)
  where
    irrefl : ¬ (n < n)
    irrefl k = omega arith

-- In a new map every handle is free.
pub make-IsStore : (size : ℕ) → IsStore (make size)
unfolding make
make-IsStore size = record {
  empty = AllEmpty-descending size size (omega arith);
  complete = λ i h. (Elem-descending i size).1 (
      omega (
        arith,
        in_range (replicate size none) i none h,
        length-replicate {A = Option FileContext} size none,
      ));
}
