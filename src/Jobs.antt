-- ===== src/Jobs.antt =====
-- jobs/SendFile.cpp: the job that sends a file to a peer in chunks of 1024 bytes.
pub mod Transfer
pub mod Delivery
pub mod Tree
pub mod Infos
pub mod Directories
pub mod Coverage
use openbookfs.Prelude.{
  ℕ, ℤ, pos, ◌+ℤ◌, Bool, true, false, not, ◌||◌, if◌then◌else◌, ltb, ltb_ℤ, List, [], ◌∷◌, Option,
  none, some, length, take, drop,
}
use openbookfs.VersionVector.{VersionVector, not_equal}
use openbookfs.Database.{FilePath}
use openbookfs.Database.Downloads.{Bytes, FileChunk}
use openbookfs.Database.Downloads.Handlers.{seek}

-- What one round of the loop finds: the version that is stored, the file, the outcomes of the system
-- calls, how many bytes `read` has for the job, and whether the peer is still connected.
pub record Round : Type 0 where
  pub version : VersionVector
  pub opens : Bool
  pub seeks : Bool
  pub content : Bytes
  pub reads : Option ℕ
  pub connected : Bool

-- How the loop ends: all is sent, the peer is gone, an exception is thrown, or it is not at its end
-- after the rounds that are given.
pub data End : Type 0 where
  complete gone failed running : End

unfoldable pub min_1024 : ℕ → ℕ
min_1024 n = if ltb n 1024 then n else 1024

-- The bytes that `read` delivers at an offset, or none if an exception is thrown before.
unfoldable pub read_bytes : VersionVector → ℤ → Round → Option Bytes
unfolding min_1024
read_bytes version offset r =
    if not_equal r.version version || not r.opens then none else elim (seek r.seeks offset) [
      | none ↦ none
      | some o ↦ elim r.reads [ none ↦ none | some n ↦ some (take (min_1024 n) (drop o r.content)) ]
    ]

-- The loop of `SendFile::go`, the messages that reach the connection and how it ends.
unfoldable pub send_loop : FilePath → ℤ → VersionVector → ℤ → List Round → ℤ → List FileChunk × End
unfolding read_bytes
send_loop path tx version size [] offset = ([], if ltb_ℤ offset size then running else complete)
send_loop path tx version size (r ∷ rs) offset =
    if not (ltb_ℤ offset size) then ([], complete) else elim (read_bytes version offset r) [
      | none ↦ ([], failed)
      | some bytes ↦
          let (chunks, end) = send_loop path tx version size rs (offset +ℤ pos (length bytes)) in
          if r.connected
          then (record { path = path; tx = tx; offset = offset; bytes = bytes } ∷ chunks, end)
          else ([], gone)
    ]

-- `SendFile::go`, with the size that `stat` finds.
unfoldable pub send_file :
    FilePath → ℤ → VersionVector → Option ℕ → List Round → ℤ → List FileChunk × End
unfolding send_loop
send_file path tx version none rounds offset = ([], failed)
send_file path tx version (some size) rounds offset =
    send_loop path tx version (pos size) rounds offset
