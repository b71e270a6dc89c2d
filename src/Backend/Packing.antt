-- ===== src/Backend/Packing.antt =====
-- The arguments of a mount point in their buffer: what fits, what is read back, and when the array of
-- pointers is too short.
use openbookfs.Prelude.{
  ℕ, zero, suc, ◌+◌, ◌-◌, ◌≤◌, ◌<◌, ◌≡◌, refl, sym, ap, subst, ◌∙◌, if◌then◌else◌, ltb, ◌==◌, List,
  [], ◌∷◌, ◌++◌, map, length, take, drop, replicate, arith, take-append, drop-append, drop-drop,
  append_assoc, length-append,
}
use openbookfs.Database.Downloads.{Bytes}
use openbookfs.Backend.Arguments.{Packing, put, overwrite, c_string}

-- The first arguments for which there is room, each with its terminator.
abbrev pub fitting : ℕ → List Bytes → List Bytes
fitting room [] = []
fitting room (a ∷ as') =
    let rest = fitting (room - (length a + 1)) as' in
    if ltb room (length a + 1) then [] else a ∷ rest

abbrev pub flat : List Bytes → Bytes
flat [] = []
flat (b ∷ bs) = b ++ (0 ∷ flat bs)

abbrev pub offsets : ℕ → List Bytes → List ℕ
offsets n [] = []
offsets n (b ∷ bs) = n ∷ offsets (n + (length b + 1)) bs

flat-append : (bs : List Bytes) (a : Bytes) → flat (bs ++ a ∷ []) ≡ flat bs ++ (a ++ (0 ∷ []))
flat-append [] a = refl
flat-append (b ∷ bs) a =
    ap (λ (l : Bytes). b ++ (0 ∷ l)) (flat-append bs a)
    ∙ sym (append_assoc b (0 ∷ flat bs) (a ++ (0 ∷ [])))

offsets-append :
    (n : ℕ) (bs : List Bytes) (a : Bytes)
    → offsets n (bs ++ a ∷ []) ≡ offsets n bs ++ (n + length (flat bs)) ∷ []
offsets-append n [] a = ap (λ (k : ℕ). k ∷ []) (omega arith)
offsets-append n (b ∷ bs) a =
    ap (λ (l : List ℕ). n ∷ l)
      (offsets-append (n + (length b + 1)) bs a
        ∙ ap (λ (k : ℕ). offsets (n + (length b + 1)) bs ++ k ∷ [])
            (subst (λ (k : ℕ). (n + (length b + 1)) + length (flat bs) ≡ n + k)
              (sym (length-append b (0 ∷ flat bs))) (omega arith)))

pub length-offsets : (n : ℕ) (bs : List Bytes) → length (offsets n bs) ≡ length bs
length-offsets n [] = refl
length-offsets n (b ∷ bs) = ap (λ (k : ℕ). suc k) (length-offsets (n + (length b + 1)) bs)

abbrev pub zeros : ℕ → Bytes
zeros n = replicate n 0

drop-zeros : (n k : ℕ) → k < n → drop k (zeros n) ≡ 0 ∷ zeros (n - (k + 1))
drop-zeros zero k lt = absurd (omega arith)
drop-zeros (suc n) zero lt = ap (λ (m : ℕ). 0 ∷ zeros m) (omega arith)
drop-zeros (suc n) (suc k) lt =
    drop-zeros n k (omega arith) ∙ ap (λ (m : ℕ). 0 ∷ zeros m) (omega arith)

c_string-append : (a rest : Bytes) → c_string (a ++ (0 ∷ rest)) ≡ c_string a
c_string-append [] rest = refl
c_string-append (x ∷ a) rest =
    ap (λ (l : Bytes). if x == 0 then [] else x ∷ l) (c_string-append a rest)

pub reads :
    (pre : Bytes) (bs : List Bytes) (rest : Bytes)
    → map (λ (o : ℕ). c_string (drop o (pre ++ (flat bs ++ rest)))) (offsets (length pre) bs)
      ≡ map c_string bs
reads pre [] rest = refl
reads pre (b ∷ bs) rest =
    let whole = flat (b ∷ bs) ++ rest in
    let later = pre ++ (b ++ (0 ∷ [])) in
    let here : c_string (drop (length pre) (pre ++ whole)) ≡ c_string b =
      ap c_string (drop-append (length pre) pre whole refl ∙ append_assoc b (0 ∷ flat bs) rest)
      ∙ c_string-append b (flat bs ++ rest) in
    let same : later ++ (flat bs ++ rest) ≡ pre ++ whole =
      append_assoc pre (b ++ (0 ∷ [])) (flat bs ++ rest)
      ∙ ap (λ (l : Bytes). pre ++ l)
          (append_assoc b (0 ∷ []) (flat bs ++ rest) ∙ sym (append_assoc b (0 ∷ flat bs) rest)) in
    let long : length later ≡ length pre + (length b + 1) =
      length-append pre (b ++ (0 ∷ []))
      ∙ ap (λ (k : ℕ). length pre + k) (length-append b (0 ∷ [])) in
    let there =
      subst
        (λ (l : Bytes).
          map (λ (o : ℕ). c_string (drop o l)) (offsets (length later) bs) ≡ map c_string bs)
        same (reads later bs rest) in
    ap
      (λ (l : Bytes).
        l
        ∷ map (λ (o : ℕ). c_string (drop o (pre ++ whole)))
            (offsets (length pre + (length b + 1)) bs))
      here
    ∙ ap (λ (l : List Bytes). c_string b ∷ l)
        (subst
          (λ (k : ℕ).
            map (λ (o : ℕ). c_string (drop o (pre ++ whole))) (offsets k bs) ≡ map c_string bs)
          long there)

-- The buffer holds these arguments, and zeros behind them.
pub record Packed (bs : List Bytes) (p : Packing) : Type 0 where
  pub bytes : p.buffer ≡ flat bs ++ zeros (256 - p.pwrite)
  pub written : p.pwrite ≡ length (flat bs)
  pub starts : p.argv ≡ offsets 0 bs
  pub within : p.pwrite ≤ 256

pub put-Packed :
    (bs : List Bytes) (a : Bytes) (p : Packing)
    → length a + 1 ≤ 256 - p.pwrite
    → Packed bs p
    → Packed (bs ++ a ∷ []) (put a p)
put-Packed bs a p le h =
    let w = p.pwrite in
    let f = flat bs in
    let e = h.written in
    let start : w ≡ 0 + length f = omega arith in
    let r = zeros (256 - w) in
    let r' = zeros ((256 - w) - (length a + 1)) in
    let front : take w (f ++ r) ≡ f = take-append w f r (sym h.written) in
    let back : drop (w + length a) (f ++ r) ≡ 0 ∷ r' =
      drop-drop (w + length a) w (length a) (f ++ r) refl
      ∙ ap (drop (length a)) (drop-append w f r (sym h.written))
      ∙ drop-zeros (256 - w) (length a) (omega arith) in
    let shape : f ++ (a ++ (0 ∷ r')) ≡ flat (bs ++ a ∷ []) ++ r' =
      ap (λ (l : Bytes). f ++ l) (sym (append_assoc a (0 ∷ []) r'))
      ∙ sym (append_assoc f (a ++ (0 ∷ [])) r')
      ∙ ap (λ (l : Bytes). l ++ r') (sym (flat-append bs a)) in
    let rest : r' ≡ zeros (256 - (w + (length a + 1))) = ap zeros (omega arith) in
    record {
      bytes =
          subst
            (λ (b : Bytes).
              overwrite w a b ≡ flat (bs ++ a ∷ []) ++ zeros (256 - (w + (length a + 1))))
            (sym h.bytes)
            (ap (λ (l : Bytes). l ++ (a ++ drop (w + length a) (f ++ r))) front
              ∙ ap (λ (l : Bytes). f ++ (a ++ l)) back
              ∙ shape
              ∙ ap (λ (l : Bytes). flat (bs ++ a ∷ []) ++ l) rest);
      written =
          subst (λ (l : Bytes). w + (length a + 1) ≡ length l) (sym (flat-append bs a))
            (subst (λ (k : ℕ). w + (length a + 1) ≡ k)
              (sym (
                length-append f (a ++ (0 ∷ []))
                ∙ ap (λ (k : ℕ). length f + k) (length-append a (0 ∷ []))))
              (omega arith));
      starts =
          ap (λ (l : List ℕ). l ++ w ∷ []) h.starts
          ∙ ap (λ (k : ℕ). offsets 0 bs ++ k ∷ []) start
          ∙ sym (offsets-append 0 bs a);
      within = omega arith;
    }

-- The arguments that fit behind those that are there.
abbrev pub all_fitting : List Bytes → Packing → List Bytes → List Bytes
all_fitting bs p args = bs ++ fitting (256 - p.pwrite) args
