-- ===== src/Jobs/Transfer.antt =====
-- The transfer of a file: the chunks of `SendFile` at one machine, merged in order at another.
use openbookfs.Prelude.{
  ℕ, zero, suc, ◌+◌, ◌<◌, ◌≤◌, ℤ, pos, String, ◌≡◌, refl, sym, subst, ◌∙◌, true, false, lt→ltb_ℤ,
  ge→ltb_ℤ, List, [], ◌∷◌, none, some, arith, length, take, drop, length-drop, length-take_le,
  ℕ-cases, inl, inr,
}
use openbookfs.VersionVector.{VersionVector, not_equal, less}
use openbookfs.Database.{FilePath, Db}
use openbookfs.Database.Versions.{get_version, set_version}
use openbookfs.Database.Downloads.{Bytes, FileChunk, Store, find_file, select_download}
use openbookfs.Database.Downloads.Handlers.{seek, merge_data}
use openbookfs.Database.Downloads.Receiving.{Receiving, working, chunk_at}
use openbookfs.Database.Downloads.Completing.{sum_pos, slice, merge_data-next, merge_data-last}
use openbookfs.Jobs.{Round, End, complete, min_1024, read_bytes, send_loop}

-- The messages arrive in the order in which they were sent, and no call of `mergeData` fails.
unfoldable pub deliver : ℕ → ℤ → List FileChunk → Store → Store
deliver junk peer [] s = s
deliver junk peer (chunk ∷ chunks) s =
    deliver junk peer chunks (merge_data junk (working chunk.bytes) peer chunk s)

-- Nothing happens to the file or its version at the sender, and no call fails there.
pub record IsSteady (source : Bytes) (version : VersionVector) (r : Round) : Type 0 where
  pub same_version : not_equal r.version version ≡ false
  pub opened : r.opens ≡ true
  pub sought : r.seeks ≡ true
  pub same_file : r.content ≡ source
  pub bytes_read : ℕ
  pub some_read : r.reads ≡ some bytes_read
  pub not_empty : 0 < bytes_read
  pub online : r.connected ≡ true

abbrev pub AllSteady : Bytes → VersionVector → List Round → Type 0
AllSteady source version [] = Unit {0}
AllSteady source version (r ∷ rs) = IsSteady source version r × AllSteady source version rs

pub min_1024_pos : (n : ℕ) → 0 < n → 0 < min_1024 n
unfolding min_1024
min_1024_pos n h = ground arith

read_bytes-IsSteady :
    (source : Bytes) (version : VersionVector) (r : Round) (offset : ℕ)
    (t : IsSteady source version r)
    → read_bytes version (pos offset) r ≡ some (slice offset (min_1024 t.bytes_read) source)
unfolding read_bytes seek
read_bytes-IsSteady source version r offset t =
    rw (t.same_version, t.opened, t.sought, t.some_read, t.same_file, read_bytes, seek) refl

length-take_pos : (n : ℕ) (xs : Bytes) → 0 < n → 0 < length xs → 0 < length (take n xs)
length-take_pos zero xs h k = absurd (omega arith)
length-take_pos (suc n) [] h k = absurd (omega arith)
length-take_pos (suc n) (x ∷ xs) h k = omega arith

pub length-slice_pos :
    (offset n : ℕ) (source : Bytes)
    → 0 < n
    → offset < length source
    → 0 < length (slice offset n source)
length-slice_pos offset n source h inside =
    length-take_pos n (drop offset source) h (omega (arith, length-drop offset source))

-- One round of the loop.
pub send_loop-IsSteady :
    (path : FilePath) (tx : ℤ) (version : VersionVector) (source : Bytes) (r : Round)
    (rs : List Round) (offset : ℕ) (t : IsSteady source version r)
    → offset < length source
    → let bytes = slice offset (min_1024 t.bytes_read) source in
      let (chunks, end) =
        send_loop path tx version (pos (length source)) rs (pos (offset + length bytes)) in
      send_loop path tx version (pos (length source)) (r ∷ rs) (pos offset)
      ≡ (chunk_at path tx offset bytes ∷ chunks, end)
unfolding send_loop
send_loop-IsSteady path tx version source r rs offset t inside =
    rw
      (
        lt→ltb_ℤ (pos offset) (pos (length source)) (omega arith),
        read_bytes-IsSteady source version r offset t,
        sum_pos offset (length (slice offset (min_1024 t.bytes_read) source)),
        t.online,
        send_loop,
      )
      refl

pub send_loop-end :
    (path : FilePath) (tx : ℤ) (version : VersionVector) (rounds : List Round) (size offset : ℕ)
    → size ≤ offset
    → send_loop path tx version (pos size) rounds (pos offset) ≡ ([], complete)
unfolding send_loop
send_loop-end path tx version [] size offset h =
    rw (ge→ltb_ℤ (pos offset) (pos size) (omega arith)) refl
send_loop-end path tx version (r ∷ rs) size offset h =
    rw (ge→ltb_ℤ (pos offset) (pos size) (omega arith), send_loop) refl

-- The job comes to its end; when its messages have been delivered, the file stands at the receiver
-- with all of its contents, its version there is updated by `v`, and the download is deleted.
abbrev pub Transferred :
    Bytes → FilePath → ℤ → VersionVector → ℕ → Store → List FileChunk × End → Type 0
Transferred source path peer v junk s (chunks, end) =
    let after = deliver junk peer chunks s in
    (end ≡ complete)
    × (find_file path after.disk.root ≡ some source)
    × (select_download path peer after.db.downloads ≡ none)
    × (after.db.version ≡ (set_version junk path v s.db).version)
    × (after.db.files ≡ s.db.files)

set_version-same :
    (junk : ℕ) (path : FilePath) (v : VersionVector) (a b : Db)
    → a.version ≡ b.version
    → a.files ≡ b.files
    → (set_version junk path v a).version ≡ (set_version junk path v b).version
unfolding set_version
set_version-same junk path v a b e f = rw (e, f) refl

pub get_version-same :
    (junk : ℕ) (path : FilePath) (a b : Db)
    → a.version ≡ b.version
    → a.files ≡ b.files
    → get_version junk path a [] ≡ get_version junk path b []
unfolding get_version
get_version-same junk path a b e f = rw (e, f) refl

-- From any offset at which the receiver is.
pub send_loop-Transferred :
    (junk : ℕ) (path : FilePath) (peer tx sent : ℤ) (temp : String) (version v : VersionVector)
    (source : Bytes) (rounds : List Round) (offset : ℕ) (s : Store)
    → AllSteady source version rounds
    → Receiving source path peer tx temp v offset s
    → offset < length source
    → length source ≤ offset + length rounds
    → less (get_version junk path s.db []) v ≡ true
    → Transferred source path peer v junk s
        (send_loop path sent version (pos (length source)) rounds (pos offset))
unfolding deliver
send_loop-Transferred junk path peer tx sent temp version v source [] offset s steady r inside
      enough newer =
    absurd (omega arith)
send_loop-Transferred junk path peer tx sent temp version v source (t ∷ ts) offset s (now, later) r
      inside enough newer =
    let n = min_1024 now.bytes_read in
    let bytes = slice offset n source in
    let progress =
      length-slice_pos offset n source (min_1024_pos now.bytes_read now.not_empty) inside in
    let round = send_loop-IsSteady path sent version source t ts offset now inside in
    let after = merge_data junk (working bytes) peer (chunk_at path sent offset bytes) s in
    subst (Transferred source path peer v junk s) (sym round)
      (elim (ℕ-cases (offset + length bytes) (length source)) [
        | inl part ↦
            let (received, _, same_rows, same_files) =
              merge_data-next junk n source path peer tx sent temp v offset s r part in
            let (ends, whole, gone, stored, kept) =
              send_loop-Transferred junk path peer tx sent temp version v source ts
                (offset + length bytes) after later received part (omega arith)
                (subst (λ q. less q v ≡ true)
                  (sym (get_version-same junk path after.db s.db same_rows same_files)) newer) in
            (
              ends,
              whole,
              gone,
              stored ∙ set_version-same junk path v after.db s.db same_rows same_files,
              kept ∙ same_files,
            )
        | inr rest ↦
            let full : offset + length bytes ≡ length source =
              omega (arith, length-take_le n (drop offset source), length-drop offset source) in
            let done =
              merge_data-last junk n source path peer tx sent temp v offset s r full newer in
            rw
              (send_loop-end path sent version ts (length source) (offset + length bytes)
                (omega arith))
              ((refl, done.0, done.1, done.2, done.3))
      ])
