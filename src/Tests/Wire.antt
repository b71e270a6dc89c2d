-- ===== src/Tests/Wire.antt =====
-- Marshall.cpp with a codec that stands for the libraries: the encryption puts a byte in front.
use openbookfs.Prelude.{
  ◌↔◌, ◌≡◌, refl, inr, true, List, [], ◌∷◌, ◌++◌, Option, some, none, arith, replicate,
}
use openbookfs.Marshall.{
  Byte, Turn, moved, closed, would_block, done, threw, too_long, AutoMessage, Codec, write, read,
  deserialize, receive_message,
}
use openbookfs.Marshall.Loops.{Ensures, Yields}
use openbookfs.Marshall.RoundTrip.{
  read-write, read-write-Yields, Framed, receive_message-Framed, write-too_long, deserialize_iff,
  IsReadAs,
}

abbrev unseal : List Byte → Option (List Byte)
unseal [] = none
unseal (b ∷ p) = some p

abbrev plain_codec : Codec (List Byte)
plain_codec = record {
  serialize_to_array = λ m. m;
  parse_from_array = λ t b. some b;
  encrypt_filter = λ p. 7 ∷ p;
  decrypt_filter = unseal;
}

abbrev ping : AutoMessage (List Byte)
ping = record { type = 1; msg = 20 ∷ 30 ∷ [] }

-- waits once, then one byte at a time
abbrev slow : List Turn
slow = would_block true ∷ moved 0 ∷ moved 0 ∷ moved 0 ∷ moved 0 ∷ moved 0 ∷ moved 0 ∷ moved 0 ∷ []

abbrev fast : List Turn
fast = moved 9 ∷ moved 9 ∷ moved 9 ∷ moved 9 ∷ moved 9 ∷ moved 9 ∷ []

abbrev broken : List Turn
broken = moved 1 ∷ closed ∷ []

read-write_example :
    (wire : List Byte) × (s' t' : List Turn) × (write plain_codec slow ping true [] ≡ done wire s')
    × (read plain_codec fast true (wire ++ (5 ∷ [])) ≡ done (ping, 5 ∷ []) t')
read-write_example =
    read-write plain_codec slow fast true ping (5 ∷ [])
      (omega arith, omega arith, omega arith, omega arith) (refl, refl) ((refl, tt), omega arith)
      (tt, omega arith)

read-write-Yields_example :
    Ensures
      (λ wire. Yields (ping, 5 ∷ []) (read plain_codec broken true (wire ++ (5 ∷ []))))
      (write plain_codec slow ping true [])
read-write-Yields_example =
    read-write-Yields plain_codec slow broken true ping (5 ∷ [])
      (omega arith, omega arith, omega arith, omega arith) (refl, refl)

receive_message-Framed_example :
    Ensures
      (Framed plain_codec (2 ∷ 0 ∷ 1 ∷ 20 ∷ 9 ∷ []))
      (receive_message plain_codec slow (2 ∷ 0 ∷ 1 ∷ 20 ∷ 9 ∷ []))
receive_message-Framed_example = receive_message-Framed plain_codec slow (2 ∷ 0 ∷ 1 ∷ 20 ∷ 9 ∷ [])

-- encrypted, one byte more than the buffers hold
abbrev large : AutoMessage (List Byte)
large = record { type = 1; msg = replicate 2047 0 }

write-too_long_example : write plain_codec slow large true [] ≡ threw too_long
write-too_long_example = write-too_long plain_codec slow true large [] (inr (omega arith))

-- the byte 1 is the type of Ping
deserialize_iff_example :
    (deserialize plain_codec (1 ∷ 20 ∷ 30 ∷ []) slow ≡ done ping slow)
    ↔ IsReadAs plain_codec 1 (20 ∷ 30 ∷ []) ping
deserialize_iff_example = deserialize_iff plain_codec 1 (20 ∷ 30 ∷ []) slow ping (omega arith)
