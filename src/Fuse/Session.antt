-- ===== src/Fuse/Session.antt =====
-- The life of an open file: `open`, writes, `release`.
use openbookfs.Prelude.{
  ℤ, pos, ◌+ℤ◌, ℕ, zero, suc, ◌<◌, ◌≡◌, refl, sym, ap, subst, ◌∙◌, Bool, true, false, ◌||◌,
  if◌then◌else◌, List, [], ◌∷◌, Option, none, some, arith, get_elem?, set, get_elem?-set_self,
  length, Option-cases, inl, inr,
}
use openbookfs.Database.{FilePath, Paths, Db}
use openbookfs.VersionVector.{find, get, less}
use openbookfs.Database.Files.{select_id}
use openbookfs.Database.Versions.{get_version, increment_version}
use openbookfs.Database.Versions.Counting.{increment_version-newer}
use openbookfs.FileMap.{
  FileContext, FileMap, fetch, register_file, unregister_file, mark, destroy, create_context,
}
use openbookfs.FileMap.Handles.{IsStore, Registers, Registration, register_file_lem, in_range}
use openbookfs.Fuse.{Mount, done, failed, ebadf, register, open_file, write, release}

-- Writes through one handle, one after another, with the results of `pwrite`.
unfoldable pub write_all : ℕ → ℕ → FilePath → List (Option ℕ) → Mount → Mount
write_all junk fd path [] s = s
write_all junk fd path (w ∷ ws) s = write_all junk fd path ws (write junk fd w true path s).1

-- Whether some write succeeds.
abbrev pub wrote : List (Option ℕ) → Bool
wrote [] = false
wrote (none ∷ ws) = wrote ws
wrote (some n ∷ ws) = true

set-set :
    (vec : List (Option FileContext)) (i : ℕ) (a b : Option FileContext)
    → set (set vec i a) i b ≡ set vec i b
set-set [] i a b = refl
set-set (x ∷ xs) zero a b = refl
set-set (x ∷ xs) (suc i) a b = ap (λ l. x ∷ l) (set-set xs i a b)

set_same :
    (vec : List (Option FileContext)) (i : ℕ) (a : Option FileContext)
    → get_elem? vec i ≡ some a
    → set vec i a ≡ vec
set_same [] i a h = refl
set_same (x ∷ xs) zero a h = ground arith
set_same (x ∷ xs) (suc i) a h = ap (λ l. x ∷ l) (set_same xs i a h)

abbrev pub context : FilePath → ℤ → Bool → FileContext
context path os_fd changed = record { path = path; fd = os_fd; changed = changed }

abbrev pub with_file : ℕ → FileContext → List (Option FileContext) → List ℕ → Db → Mount
with_file fd c vec rest db = record {
  files = record { file_vec = set vec fd (some c); free_store = rest };
  db = db;
}

fetch-with_file :
    (fd : ℕ) (c : FileContext) (vec : List (Option FileContext)) (rest : List ℕ) (db : Db)
    → fd < length vec
    → fetch fd (with_file fd c vec rest db).files ≡ some c
unfolding fetch
fetch-with_file fd c vec rest db h = ground (arith, get_elem?-set_self vec fd (some c) h)

write-with_file :
    (junk i : ℕ) (path : FilePath) (w : Option ℕ) (c : FileContext)
    (vec : List (Option FileContext)) (rest : List ℕ) (db : Db)
    → suc i < length vec
    → (write junk (suc i) w true path (with_file (suc i) c vec rest db)).1
      ≡ with_file (suc i) (record c { changed = wrote (w ∷ []) || c.changed }) vec rest db
unfolding write mark
write-with_file junk i path none c vec rest db h =
    rw (fetch-with_file (suc i) c vec rest db h, write) refl
write-with_file junk i path (some n) c vec rest db h =
    rw
      (
        fetch-with_file (suc i) c vec rest db h,
        write,
        mark,
        set-set vec (suc i) (some c) (some (record c { changed = true })),
      )
      refl

write_all-with_file :
    (junk i : ℕ) (path : FilePath) (ws : List (Option ℕ)) (c : FileContext)
    (vec : List (Option FileContext)) (rest : List ℕ) (db : Db)
    → suc i < length vec
    → write_all junk (suc i) path ws (with_file (suc i) c vec rest db)
      ≡ with_file (suc i) (record c { changed = wrote ws || c.changed }) vec rest db
unfolding write_all
write_all-with_file junk i path [] c vec rest db h = refl
write_all-with_file junk i path (w ∷ ws) c vec rest db h =
    ap (write_all junk (suc i) path ws) (write-with_file junk i path w c vec rest db h)
    ∙ write_all-with_file junk i path ws (record c { changed = wrote (w ∷ []) || c.changed }) vec
        rest db h
    ∙ ap (λ b. with_file (suc i) (record c { changed = b }) vec rest db) (either w)
  where
    either :
        (w : Option ℕ) → wrote ws || (wrote (w ∷ []) || c.changed) ≡ wrote (w ∷ ws) || c.changed
    either none = refl
    either (some n) = ground arith

pub release-with_file :
    (junk i : ℕ) (c : FileContext) (vec : List (Option FileContext)) (rest : List ℕ) (db : Db)
    → get_elem? vec (suc i) ≡ some none
    → release junk (suc i) (with_file (suc i) c vec rest db) ≡ (
      done 0,
      record {
        files = record { file_vec = vec; free_store = suc i ∷ rest };
        db = if c.changed then increment_version junk c.path db else db;
      },
    )
unfolding release unregister_file destroy
release-with_file junk i c vec rest db h =
    rw
      (
        fetch-with_file (suc i) c vec rest db (in_range vec (suc i) none h),
        release,
        unregister_file,
        set-set vec (suc i) (some c) none,
        set_same vec (suc i) none h,
        destroy,
      )
      refl

-- The mount after `registerFile` has returned the handle.
abbrev pub Opened : FilePath → ℤ → ℕ → Mount → Mount → Type 0
Opened path os_fd fd s opened =
    (get_elem? s.files.file_vec fd ≡ some none)
    × ((rest : List ℕ) × (s.files.free_store ≡ fd ∷ rest)
        × (opened ≡ with_file fd (context path os_fd false) s.files.file_vec rest s.db))

pub Registration-Opened :
    (path : FilePath) (os_fd : ℤ) (fd : ℕ) (s : Mount) (after : FileMap)
    → Registration path os_fd fd s.files after
    → Opened path os_fd fd s (record { files = after; db = s.db })
Registration-Opened path os_fd fd s after r = (
  r.was_free,
  (
    after.free_store,
    r.rest,
    ap (λ v. record { files = record { file_vec = v; free_store = after.free_store }; db = s.db })
        r.vec,
  ),
)

open_file-Opened :
    (paths : Paths) (os_fd : ℤ) (fd : ℕ) (creat : Option ℤ) (path : FilePath) (s : Mount)
    → IsStore s.files
    → (open_file paths true true true creat (some os_fd) path s).1 ≡ some fd
    → Opened path os_fd fd s (open_file paths true true true creat (some os_fd) path s).2
unfolding open_file register
open_file-Opened paths os_fd fd creat path s v h =
    elim (Option-cases (register_file path os_fd s.files)) [
      | inl full ↦ absurd (ground (arith, full))
      | inr ((got, after), registered) ↦
          let same : got ≡ fd = ground (arith, registered) in
          rw (registered, open_file, register)
            (subst (λ q. Opened path os_fd q s (record { files = after; db = s.db })) same
              (Registration-Opened path os_fd got s after (
                subst (Registers path os_fd s.files) registered
                  (register_file_lem path os_fd s.files v))))
    ]

-- A file that is opened, written to any number of times, and released: the handle is free again, the
-- other handles and files are as they were, and the version of the file is incremented once if some
-- write has succeeded, and not otherwise. The handle is not 0.
pub session_lem :
    (paths : Paths) (junk i : ℕ) (os_fd : ℤ) (creat : Option ℤ) (path : FilePath)
    (ws : List (Option ℕ)) (s : Mount)
    → IsStore s.files
    → (open_file paths true true true creat (some os_fd) path s).1 ≡ some (suc i)
    → let opened = (open_file paths true true true creat (some os_fd) path s).2 in
      let (reply, after) = release junk (suc i) (write_all junk (suc i) path ws opened) in
      (reply ≡ done 0)
      × (after.files ≡ s.files)
      × (after.db ≡ (if wrote ws then increment_version junk path s.db else s.db))
session_lem paths junk i os_fd creat path ws s v h =
    let (was_free, (rest, free, opened)) = open_file-Opened paths os_fd (suc i) creat path s v h in
    let vec = s.files.file_vec in
    let released =
      ap (λ t. release junk (suc i) (write_all junk (suc i) path ws t)) opened
      ∙ ap (release junk (suc i)) (
          write_all-with_file junk i path ws (context path os_fd false) vec rest s.db
            (in_range vec (suc i) none was_free))
      ∙ release-with_file junk i (context path os_fd (wrote ws || false)) vec rest s.db was_free in
    (
      ap (λ r. r.0) released,
      ap (λ r. r.1.files) released ∙ ap (λ l. record { file_vec = vec; free_store = l }) (sym free),
      ap (λ r. r.1.db) released
          ∙ ap (λ b. if b then increment_version junk path s.db else s.db) (or_false (wrote ws)),
    )
  where
    or_false : (b : Bool) → b || false ≡ b
    or_false true = refl
    or_false false = refl

-- A file that is in the tables, with an entry of this machine in its version, is newer after a
-- session with a successful write: its version from before is less than the one from then on, and
-- the number of this machine in it has grown by 1. The handle is not 0.
pub session_newer :
    (paths : Paths) (junk i id : ℕ) (os_fd : ℤ) (creat : Option ℤ) (path : FilePath)
    (ws : List (Option ℕ)) (s : Mount) (n : ℤ)
    → IsStore s.files
    → (open_file paths true true true creat (some os_fd) path s).1 ≡ some (suc i)
    → wrote ws ≡ true
    → select_id path s.db.files ≡ some id
    → find (pos 0) (get_version junk path s.db []) ≡ some n
    → let opened = (open_file paths true true true creat (some os_fd) path s).2 in
      let after = (release junk (suc i) (write_all junk (suc i) path ws opened)).1.db in
      (get (get_version junk path after []) (pos 0) ≡ n +ℤ pos 1)
      × (less (get_version junk path s.db []) (get_version junk path after []) ≡ true)
session_newer paths junk i id os_fd creat path ws s n v h some_write known own =
    let (_, _, same) = session_lem paths junk i os_fd creat path ws s v h in
    let incremented =
      same ∙ ap (λ b. if b then increment_version junk path s.db else s.db) some_write in
    let (grown, _, newer) = increment_version-newer junk id path s.db n known own in
    (
      ap (λ d. get (get_version junk path d []) (pos 0)) incremented ∙ grown,
      ap (λ d. less (get_version junk path s.db []) (get_version junk path d [])) incremented
          ∙ newer,
    )

write_all-zero :
    (junk : ℕ) (path : FilePath) (ws : List (Option ℕ)) (s : Mount)
    → (write_all junk 0 path ws s).files ≡ s.files
unfolding write_all write
write_all-zero junk path [] s = refl
write_all-zero junk path (none ∷ ws) s = write_all-zero junk path ws s
write_all-zero junk path (some n ∷ ws) s =
    write_all-zero junk path ws (record s { db = increment_version junk path s.db })

-- The handle 0 is given to a file, but taken for no handle afterwards: the release fails, and the
-- slot keeps the file.
pub session_zero :
    (paths : Paths) (junk : ℕ) (os_fd : ℤ) (creat : Option ℤ) (path : FilePath)
    (ws : List (Option ℕ)) (s : Mount)
    → IsStore s.files
    → (open_file paths true true true creat (some os_fd) path s).1 ≡ some 0
    → let opened = (open_file paths true true true creat (some os_fd) path s).2 in
      let (reply, after) = release junk 0 (write_all junk 0 path ws opened) in
      (reply ≡ failed ebadf) × (fetch 0 after.files ≡ some (create_context path os_fd))
unfolding release
session_zero paths junk os_fd creat path ws s v h =
    let (was_free, (rest, free, opened)) = open_file-Opened paths os_fd 0 creat path s v h in
    (
      refl,
      ap (fetch 0) (
            write_all-zero junk path ws
              (open_file paths true true true creat (some os_fd) path s).2)
          ∙ ap (λ t. fetch 0 t.files) opened
          ∙ fetch-with_file 0 (context path os_fd false) s.files.file_vec rest s.db
              (in_range s.files.file_vec 0 none was_free),
    )
