-- ===== src/Database/Downloads/Rows.antt =====
-- The contents of a staged file while its chunks arrive in order.
use openbookfs.Prelude.{
  ℕ, ◌+◌, ◌-◌, ◌≤◌, ◌≡◌, refl, sym, ap, ◌∙◌, [], ◌++◌, arith, length, take, drop, replicate,
  length-append, length-take, length-drop, length-take_le, take-add, take-append, take-length-take,
  append_assoc,
}
use openbookfs.Database.Downloads.{Bytes, write_at}

no_gap : (offset n : ℕ) → offset ≤ n → replicate {A = ℕ} (offset - n) 0 ≡ []
no_gap offset n h =
    let none_left : offset - n ≡ 0 = omega arith in ap (λ k. replicate {A = ℕ} k 0) none_left

write_at-inside :
    (offset : ℕ) (bytes file : Bytes)
    → offset ≤ length file
    → write_at offset bytes file ≡ (take offset file ++ bytes) ++ drop (offset + length bytes) file
unfolding write_at
write_at-inside offset bytes file h =
    ap (λ g. take offset file ++ (g ++ (bytes ++ drop (offset + length bytes) file)))
      (no_gap offset (length file) h)
    ∙ sym (append_assoc (take offset file) bytes (drop (offset + length bytes) file))

length-head :
    (offset : ℕ) (bytes file : Bytes)
    → offset ≤ length file
    → length (take offset file ++ bytes) ≡ offset + length bytes
length-head offset bytes file h =
    omega (arith, length-append (take offset file) bytes, length-take offset file h)

pub length-write_at :
    (offset : ℕ) (bytes file : Bytes)
    → offset + length bytes ≤ length file
    → length (write_at offset bytes file) ≡ length file
length-write_at offset bytes file h =
    ap length (write_at-inside offset bytes file (omega arith))
    ∙ omega (
      arith,
      length-append (take offset file ++ bytes) (drop (offset + length bytes) file),
      length-head offset bytes file,
      length-drop (offset + length bytes) file,
    )

pub take-write_at :
    (offset : ℕ) (bytes file : Bytes)
    → offset ≤ length file
    → take (offset + length bytes) (write_at offset bytes file) ≡ take offset file ++ bytes
take-write_at offset bytes file h =
    ap (take (offset + length bytes)) (write_at-inside offset bytes file h)
    ∙ take-append (offset + length bytes) (take offset file ++ bytes)
        (drop (offset + length bytes) file) (length-head offset bytes file h)

-- The next chunk of `source` in order: as much of it as has been received stands in the file.
pub write_at-next :
    (offset n : ℕ) (source staged : Bytes)
    → length staged ≡ length source
    → offset ≤ length source
    → take offset staged ≡ take offset source
    → let chunk = take n (drop offset source) in
      (take (offset + length chunk) (write_at offset chunk staged)
        ≡ take (offset + length chunk) source)
      × (length (write_at offset chunk staged) ≡ length source)
      × (offset + length chunk ≤ length source)
write_at-next offset n source staged same h start =
    let chunk = take n (drop offset source) in
    let fits : offset + length chunk ≤ length source =
      omega (arith, length-take_le n (drop offset source), length-drop offset source) in
    (
      take-write_at offset chunk staged (omega arith)
          ∙ ap (λ l. l ++ chunk) start
          ∙ ap (λ l. take offset source ++ l) (sym (take-length-take n (drop offset source)))
          ∙ sym (take-add (offset + length chunk) offset (length chunk) source refl),
      length-write_at offset chunk staged (omega arith) ∙ same,
      fits,
    )
