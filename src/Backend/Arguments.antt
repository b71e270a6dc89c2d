-- ===== src/Backend/Arguments.antt =====
-- backend/MessageHandler.cpp (AddMountPoint) and backend/Backend.cpp (loadConfig): the arguments of a mount
-- point are put into a buffer of 256 bytes, with the places where they start in an array of 100 pointers.
-- A pointer is an offset in the buffer.
use openbookfs.Prelude.{
  ℕ, ◌+◌, ◌-◌, if◌then◌else◌, ltb, leb, ◌==◌, List, [], ◌∷◌, ◌++◌, map, Option, none, some, length,
  take, drop, replicate,
}
use openbookfs.Database.Downloads.{Bytes}

-- `argc` is the length of `argv`.
pub record Packing : Type 0 where
  pub buffer : Bytes
  pub argv : List ℕ
  pub pwrite : ℕ

abbrev pub overwrite : ℕ → Bytes → Bytes → Bytes
overwrite at arg buffer = take at buffer ++ (arg ++ drop (at + length arg) buffer)

abbrev pub put : Bytes → Packing → Packing
put arg p = record {
  buffer = overwrite p.pwrite arg p.buffer;
  argv = p.argv ++ p.pwrite ∷ [];
  pwrite = p.pwrite + (length arg + 1);
}

-- The loop over the arguments. It writes behind the end of `argv` where there is no result.
unfoldable pub pack_loop : List Bytes → Packing → Option Packing
pack_loop [] p = some p
pack_loop (arg ∷ args) p =
    let rest = if leb 100 (length p.argv) then none else pack_loop args (put arg p) in
    if ltb (256 - p.pwrite) (length arg + 1) then some p else rest

unfoldable pub pack : List Bytes → Option Packing
pack args = pack_loop args (record { buffer = replicate 256 0; argv = []; pwrite = 0 })

-- What `std::string` takes of a pointer to characters.
abbrev pub c_string : Bytes → Bytes
c_string [] = []
c_string (x ∷ xs) = let rest = c_string xs in if x == 0 then [] else x ∷ rest

-- The copies that MountPoint::mount makes of the arguments.
abbrev pub mount_args : Packing → List Bytes
mount_args p = map (λ (o : ℕ). c_string (drop o p.buffer)) p.argv
