-- ===== src/Connection/Listening.antt =====
-- backend/Connection.cpp: what listen does with a handler that takes nothing.
use openbookfs.Prelude.{
  ℕ, ◌+◌, ◌≤◌, ◌<◌, pos, ltb, lt→ltb, ge→ltb, if◌then◌else◌, List, [], ◌∷◌, ◌++◌, ◌≡◌, inl, inr,
  refl, subst, arith, length, length-append, append_assoc, ℕ-cases,
}
use openbookfs.PriorityQueue.{PriorityQueue, insert, undefined}
use openbookfs.PriorityQueue.Order.{Keeps, Stores}
use openbookfs.PriorityQueue.Inserting.{insert_lem}
use openbookfs.Connection.Threads.{listen}

module _ {M : Type 0} where
  put_first :
      (size : ℕ) (m : M) (xs : List M) (xss : List (List M)) (inbound : PriorityQueue M)
      → Keeps size (xs ∷ xss) inbound
      → (length xs < size → Stores size ((xs ++ m ∷ []) ∷ xss) (insert m (pos 0) inbound))
        × (size ≤ length xs → insert m (pos 0) inbound ≡ undefined)
  put_first size m xs xss inbound k =
      let put = insert_lem size (xs ∷ xss) m (pos 0) inbound k in
      (
        λ lt.
            subst
              (λ b.
                if b
                then Stores size ((xs ++ m ∷ []) ∷ xss) (insert m (pos 0) inbound)
                else (insert m (pos 0) inbound ≡ undefined))
              (lt→ltb (length xs) size lt) put,
        λ le.
            subst
              (λ b.
                if b
                then Stores size ((xs ++ m ∷ []) ∷ xss) (insert m (pos 0) inbound)
                else (insert m (pos 0) inbound ≡ undefined))
              (ge→ltb (length xs) size le) put,
      )

  listen_room :
      (size : ℕ) (quit : M) (ms xs : List M) (xss : List (List M)) (inbound : PriorityQueue M)
      → Keeps size (xs ∷ xss) inbound
      → (length xs + length ms < size
          → Stores size ((xs ++ (ms ++ quit ∷ [])) ∷ xss) (listen quit ms inbound))
        × (length xs ≤ size → size ≤ length xs + length ms → listen quit ms inbound ≡ undefined)
  unfolding listen
  listen_room size quit [] xs xss inbound k =
      let put = put_first size quit xs xss inbound k in
      (λ lt. put.0 (omega arith), λ le ge. put.1 (omega arith))
  listen_room size quit (m ∷ ms) xs xss inbound k =
      let put = put_first size m xs xss inbound k in
      (
        (λ lt.
            let one = put.0 (omega arith) in
            let rest =
              (listen_room size quit ms (xs ++ m ∷ []) xss one.0 one.2).0
                (omega (arith, length-append xs (m ∷ []))) in
            (
              rest.0,
              rw (listen, one.1) rest.1,
              subst (λ l. Keeps size (l ∷ xss) rest.0) (append_assoc xs (m ∷ []) (ms ++ quit ∷ []))
                  rest.2,
            )),
        λ le ge. elim (ℕ-cases (length xs) size) [
          | inr full ↦ rw (listen, put.1 full) refl
          | inl lt ↦
              let one = put.0 lt in
              rw (listen, one.1)
                ((listen_room size quit ms (xs ++ m ∷ []) xss one.0 one.2).1
                  (omega (arith, length-append xs (m ∷ [])))
                  (omega (arith, length-append xs (m ∷ []))))
        ],
      )

  -- While the handler takes nothing, listen puts the messages and its Quit behind those that wait at
  -- priority 0, in the order in which they came; if the messages do not leave room for the Quit, it uses
  -- a null pointer.
  pub listen_lem :
      (size : ℕ) (quit : M) (ms xs : List M) (xss : List (List M)) (inbound : PriorityQueue M)
      → length xs ≤ size
      → Keeps size (xs ∷ xss) inbound
      → (if ltb (length xs + length ms) size
          then Stores size ((xs ++ (ms ++ quit ∷ [])) ∷ xss) (listen quit ms inbound)
          else (listen quit ms inbound ≡ undefined))
  listen_lem size quit ms xs xss inbound bound k =
      let both = listen_room size quit ms xs xss inbound k in
      elim (ℕ-cases (length xs + length ms) size) [
        | inl lt ↦ rw (lt→ltb (length xs + length ms) size lt) (both.0 lt)
        | inr le ↦ rw (ge→ltb (length xs + length ms) size le) (both.1 bound le)
      ]
