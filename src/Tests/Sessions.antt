-- ===== src/Tests/Sessions.antt =====
-- backend/FileContext.cpp and FuseContext.cpp: an open file in a mount with few handles.
use openbookfs.Prelude.{
  ℕ, zero, suc, get_elem?, Elem, inl, pos, ◌+ℤ◌, ◌≡◌, refl, true, List, [], ◌∷◌, Option, some, none,
  eqb_ℤ, ltb_ℤ,
}
use openbookfs.VersionVector.{find, get, assign, map_insert, assign_found, less}
use openbookfs.Database.Files.{select_id}
use openbookfs.Database.Versions.{get_version, increment_version}
use openbookfs.FileMap.{
  FileMap, make, fetch, take_handle, register_file, unregister_file, create_context, mark, destroy,
  descending,
}
use openbookfs.FileMap.Handles.{IsStore, Registers, register_file_lem, make-IsStore}
use openbookfs.Fuse.{Mount, failed, ebadf, register, create, open_file, write, release}
use openbookfs.Fuse.Session.{write_all, session_newer, session_zero}
use openbookfs.Tests.Tables.{tree, flat}

program : Unit {0}
unfolding find get assign map_insert assign_found less select_id get_version increment_version make
    descending fetch take_handle register_file unregister_file mark destroy register create
    open_file write release write_all eqb_ℤ ltb_ℤ ◌+ℤ◌
program = tt

abbrev mount : Mount
mount = record { files = make 3; db = tree }

register_file_lem_example :
    Registers "/notes" (pos 7) (make 3) (register_file "/notes" (pos 7) (make 3))
register_file_lem_example = register_file_lem "/notes" (pos 7) (make 3) (make-IsStore 3)

abbrev one_used : FileMap
one_used = record {
  file_vec = none ∷ some (create_context "/notes" (pos 7)) ∷ [];
  free_store = 0 ∷ [];
}

one_used-IsStore : IsStore one_used
one_used-IsStore = record { empty = (refl, (λ e. e), tt); complete = only }
  where
    only : (i : ℕ) → get_elem? one_used.file_vec i ≡ some none → Elem i (0 ∷ [])
    only zero h = inl refl
    only (suc zero) h = absurd cc
    only (suc (suc i)) h = absurd cc

-- Two writes, of which the second fails.
abbrev writes : List (Option ℕ)
writes = some 5 ∷ none ∷ []

session_run :
    let opened = (open_file flat true true true none (some (pos 7)) "/notes" mount).2 in
    get
      (get_version 99 "/notes" (release 99 2 (write_all 99 2 "/notes" writes opened)).1.db [])
      (pos 0)
    ≡ pos 1
unfolding program
session_run = refl

session_newer_example :
    let opened = (open_file flat true true true none (some (pos 7)) "/notes" mount).2 in
    let after = (release 99 2 (write_all 99 2 "/notes" writes opened)).1.db in
    (get (get_version 99 "/notes" after []) (pos 0) ≡ pos 0 +ℤ pos 1)
    × (less (get_version 99 "/notes" tree []) (get_version 99 "/notes" after []) ≡ true)
session_newer_example =
    session_newer flat 99 1 2 (pos 7) none "/notes" writes mount (pos 0) (make-IsStore 3)
      (unfold program in refl) refl (unfold program in refl) (unfold program in refl)

abbrev full_but_one : Mount
full_but_one = record { files = one_used; db = tree }

session_zero_example :
    let opened = (open_file flat true true true none (some (pos 8)) "/photos" full_but_one).2 in
    let (reply, after) = release 99 0 (write_all 99 0 "/photos" writes opened) in
    (reply ≡ failed ebadf) × (fetch 0 after.files ≡ some (create_context "/photos" (pos 8)))
session_zero_example =
    session_zero flat 99 (pos 8) none "/photos" writes full_but_one one_used-IsStore
      (unfold program in refl)
