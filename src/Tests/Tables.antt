-- ===== src/Tests/Tables.antt =====
-- Database.cpp on a small tree of files.
use mathlib.Core.Option.{or_else}
use openbookfs.Prelude.{
  ℤ, pos, String, str_eq, eq_iff, ◌≡◌, refl, ◌≢◌, true, false, [], ◌∷◌, none, some, ◌+ℤ◌, ltb_ℤ,
  eqb_ℤ, if◌then◌else◌, arith, ◌⊎◌,
}
use openbookfs.VersionVector.{find, get, assign, less, equal}
use openbookfs.Database.{Paths, FileRow, Db}
use openbookfs.Database.Files.{
  select_id, select_subscribed, clashes, delete_versions, has_version, init_root, mknod, unlink,
  merge, checkout, release, is_subscribed, readdir_list,
}
use openbookfs.Database.Files.Lookup.{IsValid}
use openbookfs.Database.View.{view}
use openbookfs.Database.Making.{mknod-unlink}
use openbookfs.Database.Merging.{merge_new}
use openbookfs.Database.Versions.{get_version, set_version, increment_version, assimilate_keys}
use openbookfs.Database.Versions.Writing.{set_version_lem}
use openbookfs.Database.Versions.Counting.{increment_version-newer}

program : Unit {0}
unfolding init_root mknod unlink merge checkout release is_subscribed readdir_list view get_version
    set_version increment_version assimilate_keys assign find get less equal ltb_ℤ eqb_ℤ ◌+ℤ◌
    select_id select_subscribed clashes delete_versions has_version
program = tt

-- Paths of one level below the root, enough for the tests.
abbrev pub flat : Paths
flat = record {
  parent_path = λ p. "/";
  filename = λ p. if str_eq p "/notes" then "notes" else p;
  join = λ d e. if str_eq e "photos" then "/photos" else e;
}

abbrev pub nothing : Db
nothing = record {
  files = [];
  next_file_id = 1;
  version = [];
  downloads = [];
  downloads_v = [];
  known_clients = [];
  next_client_id = 1;
}

abbrev root_row : FileRow
root_row = record { id = 1; parent = 0; node = "/"; path = "/"; subscribed = false }

abbrev notes_row : FileRow
notes_row = record { id = 2; parent = 1; node = "notes"; path = "/notes"; subscribed = true }

abbrev photos_row : FileRow
photos_row = record { id = 3; parent = 1; node = "photos"; path = "/photos"; subscribed = false }

abbrev rooted : Db
rooted = record nothing { files = root_row ∷ []; next_file_id = 2 }

abbrev pub noted : Db
noted = record nothing {
  files = root_row ∷ notes_row ∷ [];
  next_file_id = 3;
  version = record { file_id = 2; peer = pos 0; version = pos 0 } ∷ [];
}

abbrev pub tree : Db
tree = record noted { files = root_row ∷ notes_row ∷ photos_row ∷ []; next_file_id = 4 }

init_root_run : init_root nothing ≡ rooted
unfolding program
init_root_run = refl

mknod_run : mknod flat "/notes" rooted ≡ noted
unfolding program
mknod_run = refl

merge_run : merge flat 99 "/" ("notes" ∷ "photos" ∷ []) noted ≡ tree
unfolding program
merge_run = refl

readdir_run : readdir_list (λ ns. ns) 99 "/" false tree [] ≡ "notes" ∷ "photos" ∷ []
unfolding program
readdir_run = refl

pub texts_differ : (a b : String) → str_eq a b ≡ false → a ≢ b
texts_differ a b h e = ground (arith, (eq_iff a b).1 e)

rooted-IsValid : IsValid rooted
rooted-IsValid = record { distinct = (tt, tt); below = omega arith; owned = tt }

pub noted-IsValid : IsValid noted
noted-IsValid = record {
  distinct =
      ((omega arith, texts_differ "/" "/notes" refl, λ e. absurd (omega arith), tt), (tt, tt));
  below = omega arith;
  owned = omega arith;
}

-- joins by taking the second path
abbrev pub here : Paths
here = record { parent_path = λ p. "/"; filename = λ p. p; join = λ a b. b }

pub tree-IsValid : IsValid tree
tree-IsValid = record {
  distinct = (
    (
      omega arith,
      texts_differ "/" "/notes" refl,
      λ e. absurd (omega arith),
      (omega arith, texts_differ "/" "/photos" refl, λ e. absurd (omega arith), tt),
    ),
    (
      (
        omega arith,
        texts_differ "/notes" "/photos" refl,
        λ _. texts_differ "notes" "photos" refl,
        tt,
      ),
      (tt, tt),
    ),
  );
  below = omega arith;
  owned = omega arith;
}

mknod-unlink_example :
    select_subscribed "/notes" (mknod flat "/notes" (unlink 99 "/notes" tree)).files ≡ some false
mknod-unlink_example = mknod-unlink flat 99 "/notes" tree 2 (unfold program in refl)

merge_new_example :
    ((view (merge flat 99 "/" ("photos" ∷ []) rooted) "/photos" ≡ none)
      ⊎ (view (merge flat 99 "/" ("photos" ∷ []) rooted) "/photos" ≡ some (false, [])))
    × IsValid (merge flat 99 "/" ("photos" ∷ []) rooted)
merge_new_example =
    merge_new flat 99 "/" "/photos" ("photos" ∷ []) rooted rooted-IsValid (unfold program in refl)

set_version_lem_example :
    find (pos 3) (get_version 99 "/notes" (set_version 99 "/notes" ((pos 3, pos 5) ∷ []) tree) [])
    ≡ some (pos 5)
unfolding or_else find eqb_ℤ
set_version_lem_example =
    set_version_lem 99 2 2 "/notes" "/notes" ((pos 3, pos 5) ∷ []) tree (pos 3) (tt, tt)
      (unfold program in refl) (unfold program in refl)

increment_version-newer_example :
    let before = get_version 99 "/notes" tree [] in
    let after = get_version 99 "/notes" (increment_version 99 "/notes" tree) [] in
    (get after (pos 0) ≡ pos 0 +ℤ pos 1)
    × ((k : ℤ) → find k after ≡ (if eqb_ℤ (pos 0) k then some (pos 0 +ℤ pos 1) else find k before))
    × (less before after ≡ true)
increment_version-newer_example =
    increment_version-newer 99 2 "/notes" tree (pos 0) (unfold program in refl)
      (unfold program in refl)
