-- ===== src/Database/Downloads/Adding.antt =====
-- `addDownload` stores the version vector that it is given.
use openbookfs.Prelude.{
  ℤ, pos, ◌<ℤ◌, str_eq, ◌≡◌, refl, ap, ◌∙◌, false, ◌&&◌, if◌then◌else◌, eqb_ℤ, eqb_ℤ_iff,
  eqb_ℤ_refl, ltb_ℤ→lt, List, [], ◌∷◌, ◌++◌, none, arith, append_assoc, parts_of_eq,
}
use text.Mathlib.TextPositions.{eq_refl}
use openbookfs.VersionVector.{VersionVector, find, assign, map_insert, assign_found}
use openbookfs.VersionVector.Entries.{find-assign}
use openbookfs.VersionVector.Sorted.{IsMap, AllAbove}
use openbookfs.Database.{FilePath, DownloadVersionRow, Db, ok}
use openbookfs.Database.Downloads.{download_version, has_download_v, insert_download_v}

-- All keys of the vector are below the key.
abbrev pub AllBelow : VersionVector → ℤ → Type 0
AllBelow [] k = Unit {0}
AllBelow ((j, x) ∷ m) k = (j <ℤ k) × AllBelow m k

abbrev pub HeadAbove : VersionVector → VersionVector → Type 0
HeadAbove m [] = Unit {0}
HeadAbove m ((k, x) ∷ v) = AllBelow m k

pub HeadAbove-nil : (v : VersionVector) → HeadAbove [] v
HeadAbove-nil [] = tt
HeadAbove-nil ((k, x) ∷ v) = tt

AllBelow-append :
    (m : VersionVector) (k j x : ℤ) → AllBelow m k → k <ℤ j → AllBelow (m ++ (k, x) ∷ []) j
AllBelow-append [] k j x b h = (h, tt)
AllBelow-append ((i, y) ∷ m) k j x b h = (omega arith, AllBelow-append m k j x b.1 h)

HeadAbove-append :
    (m v : VersionVector) (k x : ℤ) → AllBelow m k → AllAbove k v → HeadAbove (m ++ (k, x) ∷ []) v
HeadAbove-append m [] k x b a = tt
HeadAbove-append m ((j, y) ∷ v) k x b a = AllBelow-append m k j x b a.0

find-AllBelow : (m : VersionVector) (k : ℤ) → AllBelow m k → find k m ≡ none
unfolding find
find-AllBelow [] k b = refl
find-AllBelow ((j, x) ∷ m) k b =
    ground (arith, find-AllBelow m k b.1, eqb_ℤ_iff j k, parts_of_eq j k)

map_insert-last : (m : VersionVector) (k x : ℤ) → AllBelow m k → map_insert k x m ≡ m ++ (k, x) ∷ []
unfolding map_insert
map_insert-last [] k x b = refl
map_insert-last ((j, y) ∷ m) k x b = ground (arith, map_insert-last m k x b.1, ltb_ℤ→lt k j)

assign_found-last :
    (m : VersionVector) (k x y : ℤ)
    → AllBelow m k
    → assign_found k x (m ++ (k, y) ∷ []) ≡ m ++ (k, x) ∷ []
unfolding assign_found
assign_found-last [] k x y b = ground (arith, eqb_ℤ_refl k)
assign_found-last ((j, z) ∷ m) k x y b =
    ground (arith, assign_found-last m k x y b.1, eqb_ℤ_iff j k, parts_of_eq j k)

assign-last : (m : VersionVector) (k x : ℤ) → AllBelow m k → assign k x m ≡ m ++ (k, x) ∷ []
unfolding assign
assign-last m k x b =
    rw (find-AllBelow m k b, assign, map_insert-last m k (pos 0) b)
      (assign_found-last m k x (pos 0) b)

download_version-append :
    (path : FilePath) (peer : ℤ) (rows : List DownloadVersionRow) (d : DownloadVersionRow)
    (v : VersionVector)
    → d.path ≡ path
    → d.peer ≡ peer
    → download_version path peer (rows ++ d ∷ []) v
      ≡ assign d.v_peer d.v_version (download_version path peer rows v)
unfolding download_version
download_version-append path peer [] d v e f = ground (arith, e, f, eq_refl path, eqb_ℤ_refl peer)
download_version-append path peer (r ∷ rs) d v e f = download_version-append path peer rs d _ e f

has_download_v-find :
    (path : FilePath) (peer k : ℤ) (rows : List DownloadVersionRow) (v : VersionVector)
    → find k (download_version path peer rows v) ≡ none
    → (has_download_v path peer k rows ≡ false) × (find k v ≡ none)
unfolding download_version has_download_v
has_download_v-find path peer k [] v h = (refl, h)
has_download_v-find path peer k (r ∷ rs) v h = ground (
  arith,
  has_download_v-find path peer k rs
      (if str_eq r.path path && eqb_ℤ r.peer peer then assign r.v_peer r.v_version v else v),
  find-assign r.v_peer r.v_version v k,
)

append_nil : (m : VersionVector) → m ≡ m ++ []
append_nil [] = refl
append_nil (e ∷ m) = ap (λ l. e ∷ l) (append_nil m)

-- The entries stand in the table after those that are there.
pub insert_download_v_lem :
    (path : FilePath) (peer : ℤ) (m v : VersionVector) (db : Db)
    → download_version path peer db.downloads_v [] ≡ m
    → HeadAbove m v
    → IsMap v
    → (after : Db) × (insert_download_v path peer v db ≡ ok tt after)
      × (download_version path peer after.downloads_v [] ≡ m ++ v)
      × (after.downloads ≡ db.downloads)
      × (after.version ≡ db.version)
      × (after.files ≡ db.files)
unfolding insert_download_v
insert_download_v_lem path peer m [] db h b s = (db, refl, h ∙ append_nil m, refl, refl, refl)
insert_download_v_lem path peer m ((k, x) ∷ v) db h b s =
    let row : DownloadVersionRow = record { path = path; peer = peer; v_peer = k; v_version = x } in
    let next : Db = record db { downloads_v = db.downloads_v ++ row ∷ [] } in
    let none_there =
      has_download_v-find path peer k db.downloads_v [] (ap (find k) h ∙ find-AllBelow m k b) in
    let loaded =
      download_version-append path peer db.downloads_v row [] refl refl
      ∙ ap (assign k x) h
      ∙ assign-last m k x b in
    let (after, done, read, same_downloads, same_version, same_files) =
      insert_download_v_lem path peer (m ++ (k, x) ∷ []) v next loaded
        (HeadAbove-append m v k x b s.0) s.1 in
    (
      after,
      (rw (none_there.0, insert_download_v) done),
      read ∙ append_assoc m ((k, x) ∷ []) v,
      same_downloads,
      same_version,
      same_files,
    )
