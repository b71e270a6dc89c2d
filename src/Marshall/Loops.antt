-- ===== src/Marshall/Loops.antt =====
-- Marshall.cpp, the loops around recv and send: what they have done when they end, and that they end.
use openbookfs.Prelude.{ℕ, zero, suc, ◌+◌, ◌-◌, ◌≤◌, ◌≡◌, refl, sym, ap, ◌∙◌, subst, true, false}
use openbookfs.Prelude.{List, [], ◌∷◌, ◌++◌, length, take, drop, arith}
use openbookfs.Prelude.{
  take-add, drop-drop, take-drop, append_assoc, append_nil, length-drop, length-append, length-take,
}
use openbookfs.Marshall.{Byte, Turn, moved, closed, would_block, failed, Step, done, threw, waiting}
use openbookfs.Marshall.{and_then, passes, recv_loop, send_loop}

-- No turn ends the connection, wakes the wait for another reason or fails.
abbrev pub Calm : List Turn → Type 0
Calm [] = Unit
Calm (moved k ∷ s) = Calm s
Calm (closed ∷ s) = ⊥
Calm (would_block b ∷ s) = (b ≡ true) × Calm s
Calm (failed ∷ s) = ⊥

-- the turns that let bytes pass
abbrev pub moves : List Turn → ℕ
moves [] = 0
moves (moved k ∷ s) = suc (moves s)
moves (closed ∷ s) = moves s
moves (would_block b ∷ s) = moves s
moves (failed ∷ s) = moves s

-- What holds of the value when the step ends.
abbrev pub Ensures : {A : Type 0} → (A → Type 0) → Step A → Type 0
Ensures P (done a s) = P a
Ensures P (threw e) = Unit
Ensures P waiting = Unit

-- A step that, when it ends, ends with this value.
abbrev pub Yields : {A : Type 0} → A → Step A → Type 0
Yields a r = Ensures (λ b. a ≡ b) r

pub Ensures-map :
    {A : Type 0} {P Q : A → Type 0} (r : Step A) → ((a : A) → P a → Q a) → Ensures P r → Ensures Q r
Ensures-map (done a s) f h = f a h
Ensures-map (threw e) f h = tt
Ensures-map waiting f h = tt

pub Ensures-and_then :
    {A B : Type 0} {P : A → Type 0} (Q : B → Type 0) (r : Step A) (f : A → List Turn → Step B)
    → Ensures P r
    → ((a : A) (t : List Turn) → P a → Ensures Q (f a t))
    → Ensures Q (and_then r f)
Ensures-and_then Q (done a s) f h g = g a s h
Ensures-and_then Q (threw e) f h g = tt
Ensures-and_then Q waiting f h g = tt

-- A step that ends with this value and leaves calm turns, having used at most `n` of those that move.
abbrev pub Ends : {A : Type 0} → A → ℕ → List Turn → Step A → Type 0
Ends {A} a n s r = (t : List Turn) × (r ≡ done a t) × Calm t × (moves s ≤ moves t + n)

pub Ends-and_then :
    {A B : Type 0} {a : A} {b : B} (n m : ℕ) (s : List Turn) (r : Step A)
    (f : A → List Turn → Step B)
    → Ends a n s r
    → ((t : List Turn) → Calm t → moves s ≤ moves t + n → Ends b m t (f a t))
    → Ends b (n + m) s (and_then r f)
Ends-and_then {a} {b} n m s r f h g =
    let next = g h.0 h.2 h.3 in
    (next.0, ap (λ q. and_then q f) h.1 ∙ next.1, next.2, omega (arith, h.3, next.3))

passes_pos : (k left there : ℕ) → 1 ≤ there → 1 ≤ passes k (suc left) there
passes_pos k left there h = ground arith

passes_le : (k left there : ℕ) → passes k (suc left) there ≤ suc left
passes_le k left there = ground arith

passes_there : (k left there : ℕ) → passes k (suc left) there ≤ there
passes_there k left there = ground arith

step_got :
    (n p : ℕ) (got wire : List Byte)
    → p ≤ n
    → (got ++ take p wire) ++ take (n - p) (drop p wire) ≡ got ++ take n wire
step_got n p got wire h =
    append_assoc got (take p wire) (take (n - p) (drop p wire))
    ∙ ap (λ l. got ++ l) (sym (take-add n p (n - p) wire (omega arith)))

step_wire : (n p : ℕ) (wire : List Byte) → p ≤ n → drop (n - p) (drop p wire) ≡ drop n wire
step_wire n p wire h = sym (drop-drop n p (n - p) wire (omega arith))

both : {a b c d : List Byte} → a ≡ b → c ≡ d → ◌≡◌ {A = List Byte × List Byte} (a, c) (b, d)
both e f = λ i. (e i, f i)

pub recv_loop-Yields :
    (s : List Turn) (left : ℕ) (got wire : List Byte)
    → Yields (got ++ take left wire, drop left wire) (recv_loop s left got wire)
unfolding recv_loop
recv_loop-Yields s zero got wire = ap (λ l. (l, wire)) (append_nil got)
recv_loop-Yields [] (suc left) got wire = tt
recv_loop-Yields (moved k ∷ s) (suc left) got wire =
    let p = passes k (suc left) (length wire) in
    subst (λ r. Yields r (recv_loop s (suc left - p) (got ++ take p wire) (drop p wire)))
      (both (step_got (suc left) p got wire (passes_le k left (length wire)))
        (step_wire (suc left) p wire (passes_le k left (length wire))))
      (recv_loop-Yields s (suc left - p) (got ++ take p wire) (drop p wire))
recv_loop-Yields (closed ∷ s) (suc left) got wire = tt
recv_loop-Yields (would_block true ∷ s) (suc left) got wire = recv_loop-Yields s (suc left) got wire
recv_loop-Yields (would_block false ∷ s) (suc left) got wire = tt
recv_loop-Yields (failed ∷ s) (suc left) got wire = tt

-- Whatever the turns: the loop has read exactly the bytes that it wanted, and they stood in front.
abbrev pub Reads : List Byte → ℕ → List Byte → List Byte × List Byte → Type 0
Reads got left wire r =
    (read : List Byte) × (r.0 ≡ got ++ read) × (length read ≡ left) × (wire ≡ read ++ r.1)

Reads-step :
    (p left : ℕ) (got wire : List Byte) (r : List Byte × List Byte)
    → p ≤ length wire
    → p ≤ left
    → Reads (got ++ take p wire) (left - p) (drop p wire) r
    → Reads got left wire r
Reads-step p left got wire r there le h = (
  take p wire ++ h.0,
  h.1 ∙ append_assoc got (take p wire) h.0,
  omega (arith, length-append (take p wire) h.0, length-take p wire there, h.2),
  sym (take-drop p wire)
      ∙ ap (λ l. take p wire ++ l) h.3
      ∙ sym (append_assoc (take p wire) h.0 r.1),
)

pub recv_loop-Reads :
    (s : List Turn) (left : ℕ) (got wire : List Byte)
    → Ensures (Reads got left wire) (recv_loop s left got wire)
unfolding recv_loop
recv_loop-Reads s zero got wire = ([], sym (append_nil got), refl, refl)
recv_loop-Reads [] (suc left) got wire = tt
recv_loop-Reads (moved k ∷ s) (suc left) got wire =
    let p = passes k (suc left) (length wire) in
    Ensures-map (recv_loop s (suc left - p) (got ++ take p wire) (drop p wire))
      (λ r.
        Reads-step p (suc left) got wire r (passes_there k left (length wire))
          (passes_le k left (length wire)))
      (recv_loop-Reads s (suc left - p) (got ++ take p wire) (drop p wire))
recv_loop-Reads (closed ∷ s) (suc left) got wire = tt
recv_loop-Reads (would_block true ∷ s) (suc left) got wire = recv_loop-Reads s (suc left) got wire
recv_loop-Reads (would_block false ∷ s) (suc left) got wire = tt
recv_loop-Reads (failed ∷ s) (suc left) got wire = tt

pub recv_loop-Ends :
    (s : List Turn) (left : ℕ) (got wire : List Byte)
    → Calm s
    → left ≤ moves s
    → left ≤ length wire
    → Ends (got ++ take left wire, drop left wire) left s (recv_loop s left got wire)
unfolding recv_loop
recv_loop-Ends s zero got wire c m w =
    (s, ap (λ l. done (l, wire) s) (sym (append_nil got)), c, omega arith)
recv_loop-Ends [] (suc left) got wire c m w = absurd (omega arith)
recv_loop-Ends (moved k ∷ s) (suc left) got wire c m w =
    let p = passes k (suc left) (length wire) in
    let le = passes_le k left (length wire) in
    let rest =
      recv_loop-Ends s (suc left - p) (got ++ take p wire) (drop p wire) c
        (omega (arith, passes_pos k left (length wire) (omega arith)))
        (omega (arith, length-drop p wire, le)) in
    (
      rest.0,
      rest.1
          ∙ ap (λ r. done r rest.0)
              (both (step_got (suc left) p got wire le) (step_wire (suc left) p wire le)),
      rest.2,
      omega (arith, rest.3, le, passes_pos k left (length wire) (omega arith)),
    )
recv_loop-Ends (closed ∷ s) (suc left) got wire c m w = absurd c
recv_loop-Ends (would_block true ∷ s) (suc left) got wire c m w =
    recv_loop-Ends s (suc left) got wire c.1 m w
recv_loop-Ends (would_block false ∷ s) (suc left) got wire c m w = absurd cc
recv_loop-Ends (failed ∷ s) (suc left) got wire c m w = absurd c

-- One round of send moves the bytes from the buffer to the wire.
step_send :
    (k : ℕ) (b : Byte) (buf wire : List Byte)
    → (wire ++ (b ∷ take k buf)) ++ drop k buf ≡ wire ++ (b ∷ buf)
step_send k b buf wire =
    append_assoc wire (b ∷ take k buf) (drop k buf) ∙ ap (λ l. wire ++ (b ∷ l)) (take-drop k buf)

pub send_loop-Yields :
    (s : List Turn) (buf wire : List Byte) → Yields (wire ++ buf) (send_loop s buf wire)
unfolding send_loop
send_loop-Yields s [] wire = append_nil wire
send_loop-Yields [] (b ∷ buf) wire = tt
send_loop-Yields (moved k ∷ s) (b ∷ buf) wire =
    subst (λ r. Yields r (send_loop s (drop k buf) (wire ++ (b ∷ take k buf))))
      (step_send k b buf wire) (send_loop-Yields s (drop k buf) (wire ++ (b ∷ take k buf)))
send_loop-Yields (closed ∷ s) (b ∷ buf) wire = tt
send_loop-Yields (would_block true ∷ s) (b ∷ buf) wire = send_loop-Yields s (b ∷ buf) wire
send_loop-Yields (would_block false ∷ s) (b ∷ buf) wire = tt
send_loop-Yields (failed ∷ s) (b ∷ buf) wire = tt

pub send_loop-Ends :
    (s : List Turn) (buf wire : List Byte)
    → Calm s
    → length buf ≤ moves s
    → Ends (wire ++ buf) (length buf) s (send_loop s buf wire)
unfolding send_loop
send_loop-Ends s [] wire c m = (s, ap (λ l. done l s) (sym (append_nil wire)), c, omega arith)
send_loop-Ends [] (b ∷ buf) wire c m = absurd (omega arith)
send_loop-Ends (moved k ∷ s) (b ∷ buf) wire c m =
    let rest =
      send_loop-Ends s (drop k buf) (wire ++ (b ∷ take k buf)) c
        (omega (arith, length-drop k buf)) in
    (
      rest.0,
      rest.1 ∙ ap (λ r. done r rest.0) (step_send k b buf wire),
      rest.2,
      omega (arith, rest.3, length-drop k buf),
    )
send_loop-Ends (closed ∷ s) (b ∷ buf) wire c m = absurd c
send_loop-Ends (would_block true ∷ s) (b ∷ buf) wire c m = send_loop-Ends s (b ∷ buf) wire c.1 m
send_loop-Ends (would_block false ∷ s) (b ∷ buf) wire c m = absurd cc
send_loop-Ends (failed ∷ s) (b ∷ buf) wire c m = absurd c
