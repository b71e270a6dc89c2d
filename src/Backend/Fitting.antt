-- ===== src/Backend/Fitting.antt =====
-- The loop over the arguments of a mount point: it ends with the arguments that fit, or it writes behind the
-- array of pointers.
use openbookfs.Prelude.{
  ℕ, suc, ◌+◌, ◌-◌, ◌≤◌, ◌<◌, ◌≡◌, refl, sym, ap, subst, ◌∙◌, ◌⊎◌, inl, inr, ltb, leb, List, [],
  ◌∷◌, ◌++◌, map, Option, none, some, length, drop, replicate, arith, true, false, append_assoc,
  append_nil, length-append, ge→ltb, lt→ltb, ℕ-cases, length-replicate,
}
use openbookfs.Database.Downloads.{Bytes}
use openbookfs.Backend.Arguments.{Packing, put, pack_loop, pack, c_string, mount_args}
use openbookfs.Backend.Packing.{
  fitting, flat, zeros, reads, length-offsets, put-Packed, Packed, all_fitting,
}

-- A list of arguments that are in their places, or the array of pointers was too short for it.
abbrev Ended : List Bytes → Option Packing → Type 0
Ended bs o =
    ((after : Packing) × (o ≡ some after) × Packed bs after × (length bs ≤ 100))
    ⊎ ((o ≡ none) × (100 < length bs))

module _ (a : Bytes) (args : List Bytes) (p : Packing) where
  no_room : (room : ℕ) → ltb room (length a + 1) ≡ true → fitting room (a ∷ args) ≡ []
  no_room room e = rw (e) refl

  room_left :
      (room : ℕ)
      → ltb room (length a + 1) ≡ false
      → fitting room (a ∷ args) ≡ a ∷ fitting (room - (length a + 1)) args
  room_left room e = rw (e) refl

  loop_full : ltb (256 - p.pwrite) (length a + 1) ≡ true → pack_loop (a ∷ args) p ≡ some p
  unfolding pack_loop
  loop_full e = rw (e) refl

  loop_short :
      ltb (256 - p.pwrite) (length a + 1) ≡ false
      → leb 100 (length p.argv) ≡ true
      → pack_loop (a ∷ args) p ≡ none
  unfolding pack_loop
  loop_short e f = rw (e) (rw (f) refl)

  loop_more :
      ltb (256 - p.pwrite) (length a + 1) ≡ false
      → leb 100 (length p.argv) ≡ false
      → pack_loop (a ∷ args) p ≡ pack_loop args (put a p)
  unfolding pack_loop
  loop_more e f = rw (e) (rw (f) refl)

-- The loop ends with all that fits, or it writes behind the 100 pointers.
pack_loop_lem :
    (args bs : List Bytes) (p : Packing)
    → Packed bs p
    → length bs ≤ 100
    → Ended (all_fitting bs p args) (pack_loop args p)
unfolding pack_loop
pack_loop_lem [] bs p h le =
    subst (λ (l : List Bytes). Ended l (some p)) (sym (append_nil bs)) (inl (p, refl, h, le))
pack_loop_lem (a ∷ args) bs p h le =
    let room = 256 - p.pwrite in
    let n = length a + 1 in
    elim (ℕ-cases room n) [
      | inl small ↦
          let e = lt→ltb room n small in
          subst (λ (l : List Bytes). Ended l (pack_loop (a ∷ args) p))
            (sym (ap (λ (l : List Bytes). bs ++ l) (no_room a args p room e) ∙ append_nil bs))
            (inl (p, loop_full a args p e, h, le))
      | inr big ↦
          let e = ge→ltb room n big in
          let starts : length p.argv ≡ length bs =
            ap (λ (l : List ℕ). length l) h.starts ∙ length-offsets 0 bs in
          let all = room_left a args p room e in
          let longer : length (bs ++ a ∷ fitting (room - n) args)
              ≡ length bs + suc (length (fitting (room - n) args)) =
            length-append bs (a ∷ fitting (room - n) args) in
          subst (λ (l : List Bytes). Ended (bs ++ l) (pack_loop (a ∷ args) p)) (sym all)
            (elim (ℕ-cases (length bs) 100) [
              | inr at_end ↦ inr (loop_short a args p e (ground arith), omega arith)
              | inl some_left ↦
                  let f : leb 100 (length p.argv) ≡ false = ground arith in
                  let ih =
                    pack_loop_lem args (bs ++ a ∷ []) (put a p) (put-Packed bs a p big h) (
                      subst (λ (k : ℕ). k ≤ 100) (sym (length-append bs (a ∷ []))) (omega arith)) in
                  let rooms : 256 - (p.pwrite + n) ≡ room - n = omega arith in
                  let same : (bs ++ a ∷ []) ++ fitting (256 - (p.pwrite + n)) args
                      ≡ bs ++ a ∷ fitting (room - n) args =
                    append_assoc bs (a ∷ []) (fitting (256 - (p.pwrite + n)) args)
                    ∙ ap (λ (k : ℕ). bs ++ a ∷ fitting k args) rooms in
                  subst (λ (l : List Bytes). Ended l (pack_loop (a ∷ args) p)) same
                    (subst
                      (λ (o : Option Packing).
                        Ended ((bs ++ a ∷ []) ++ fitting (256 - (p.pwrite + n)) args) o)
                      (sym (loop_more a args p e f)) ih)
            ])
    ]

start-Packed : Packed [] (record { buffer = replicate 256 0; argv = []; pwrite = 0 })
start-Packed = record { bytes = refl; written = refl; starts = refl; within = omega arith }

pack-Ended : (args : List Bytes) → Ended (fitting 256 args) (pack args)
unfolding pack
pack-Ended args =
    pack_loop_lem args [] (record { buffer = replicate 256 0; argv = []; pwrite = 0 }) start-Packed
      (omega arith)

mount_args-Packed : (bs : List Bytes) (p : Packing) → Packed bs p → mount_args p ≡ map c_string bs
mount_args-Packed bs p h =
    ap (λ (b : Bytes). map (λ (o : ℕ). c_string (drop o b)) p.argv) h.bytes
    ∙ ap (λ (l : List ℕ). map (λ (o : ℕ). c_string (drop o (flat bs ++ zeros (256 - p.pwrite)))) l)
        h.starts
    ∙ reads [] bs (zeros (256 - p.pwrite))

length-Packed : (bs : List Bytes) (p : Packing) → Packed bs p → length p.buffer ≡ 256
length-Packed bs p h =
    ap (λ (l : Bytes). length l) h.bytes
    ∙ length-append (flat bs) (zeros (256 - p.pwrite))
    ∙ ap (λ (k : ℕ). length (flat bs) + k) (length-replicate (256 - p.pwrite) 0)
    ∙ (let e = h.written in let le = h.within in omega arith)

-- Either at most 100 of the arguments fit into 256 bytes, each with a terminator: then the loop ends, the buffer
-- has kept its length, and the mount point gets the arguments that fit, each up to its first zero byte. Or more
-- than 100 fit: then the loop writes behind the end of the array of pointers.
pub pack_lem :
    (args : List Bytes)
    → ((p : Packing) × (pack args ≡ some p)
        × (mount_args p ≡ map c_string (fitting 256 args))
        × (length p.buffer ≡ 256)
        × (length (fitting 256 args) ≤ 100))
      ⊎ ((pack args ≡ none) × (100 < length (fitting 256 args)))
pack_lem args = elim (pack-Ended args) [
  | inl (p, e, h, le) ↦
      inl (p, e, mount_args-Packed (fitting 256 args) p h, length-Packed (fitting 256 args) p h, le)
  | inr (e, more) ↦ inr (e, more)
]

-- What the mount point gets, where the pointers are enough.
pub mount_args-pack :
    (args : List Bytes)
    → length (fitting 256 args) ≤ 100
    → (p : Packing) × (pack args ≡ some p) × (mount_args p ≡ map c_string (fitting 256 args))
mount_args-pack args le = elim (pack_lem args) [
  | inl (p, e, got, _, _) ↦ (p, e, got)
  | inr (_, more) ↦ absurd (omega arith)
]
