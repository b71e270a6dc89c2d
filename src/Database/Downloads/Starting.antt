-- ===== src/Database/Downloads/Starting.antt =====
-- `addDownload` makes the store ready to receive a file from its start.
use text.Mathlib.TextPositions.{eq_refl}
use openbookfs.Prelude.{
  ℕ, ◌-◌, ℤ, pos, ◌+ℤ◌, String, ◌≡◌, refl, ap, ◌∙◌, false, eqb_ℤ_refl, List, [], ◌∷◌, ◌++◌, Option,
  none, some, arith, inl, inr, ℕ-cases, take, length, replicate, length-append, length-replicate,
  length-take, take_all,
}
use openbookfs.VersionVector.{VersionVector, greater_equal}
use openbookfs.VersionVector.Sorted.{IsMap}
use openbookfs.Database.{FilePath, DownloadRow, DownloadVersionRow, Db}
use openbookfs.Database.Downloads.{
  Bytes, Store, resize, truncate, find_file, select_download, restart, delete_download_v,
  download_version, restart_download, create_download,
}
use openbookfs.Database.Downloads.Handlers.{add_download, temp_of}
use openbookfs.Database.Downloads.Adding.{insert_download_v_lem, HeadAbove-nil}
use openbookfs.Database.Downloads.Receiving.{Receiving, row_at, find_file-set_file}

pub length-resize : (n : ℕ) (file : Bytes) → length (resize (pos n) file) ≡ n
unfolding resize
length-resize n file = elim (ℕ-cases n (length file)) [
  | inl h ↦ omega (
    arith,
    length-append (take n file) (replicate (n - length file) 0),
    length-take n file (omega arith),
    length-replicate {A = ℕ} (n - length file) 0,
  )
  | inr h ↦
      let all : length (take n file) ≡ length file = ap length (take_all n file h) in
      omega (
        arith,
        length-append (take n file) (replicate (n - length file) 0),
        length-replicate {A = ℕ} (n - length file) 0,
      )
]

select_download-append :
    (path : FilePath) (peer : ℤ) (ds : List DownloadRow) (d : DownloadRow)
    → select_download path peer ds ≡ none
    → d.path ≡ path
    → d.peer ≡ peer
    → select_download path peer (ds ++ d ∷ []) ≡ some d
unfolding select_download
select_download-append path peer [] d h e f = ground (arith, e, f, eq_refl path, eqb_ℤ_refl peer)
select_download-append path peer (x ∷ xs) d h e f =
    ground (arith, select_download-append path peer xs d)

select_download-restart :
    (path : FilePath) (peer size : ℤ) (ds : List DownloadRow) (d : DownloadRow)
    → select_download path peer ds ≡ some d
    → select_download path peer (restart path peer size ds)
      ≡ some (record d { tx = d.tx +ℤ pos 1; recd = pos 0; size = size })
unfolding select_download restart
select_download-restart path peer size [] d h = absurd cc
select_download-restart path peer size (x ∷ xs) d h =
    ground (arith, select_download-restart path peer size xs d)

download_version-delete :
    (path : FilePath) (peer : ℤ) (ds : List DownloadVersionRow) (v : VersionVector)
    → download_version path peer (delete_download_v path peer ds) v ≡ v
unfolding download_version delete_download_v
download_version-delete path peer [] v = refl
download_version-delete path peer (d ∷ ds) v =
    ground (arith, download_version-delete path peer ds v)

-- A new download
pub add_download-new :
    (path : FilePath) (peer : ℤ) (temp : String) (source : Bytes) (v : VersionVector) (s : Store)
    → select_download path peer s.db.downloads ≡ none
    → download_version path peer s.db.downloads_v [] ≡ []
    → IsMap v
    → let after = add_download (some temp) peer path (pos (length source)) v s in
      Receiving source path peer (pos 0) temp v 0 after
      × (after.disk.root ≡ s.disk.root)
      × (after.db.version ≡ s.db.version)
      × (after.db.files ≡ s.db.files)
unfolding add_download create_download
add_download-new path peer temp source v s fresh none_stored m =
    let row = row_at path peer (pos 0) temp 0 (length source) in
    let first : Db = record s.db { downloads = s.db.downloads ++ row ∷ [] } in
    let (after, done, read, same_downloads, same_version, same_files) =
      insert_download_v_lem path peer [] v first none_stored (HeadAbove-nil v) m in
    rw (fresh, add_download, done)
      ((
        record {
          row =
              ap (select_download path peer) same_downloads
              ∙ select_download-append path peer s.db.downloads row fresh refl refl;
          staged = resize (pos (length source)) [];
          found =
              find_file-set_file temp temp (resize (pos (length source)) []) s.disk.stage
              ∙ ground (arith, eq_refl temp);
          same_size = length-resize (length source) [];
          start = refl;
          version = read;
          within = omega arith;
        },
        refl,
        same_version,
        same_files,
      ))

-- A download that is there, for a version that is not as new: it starts again from the first byte.
pub add_download-restart :
    (path : FilePath) (peer : ℤ) (mkstemp : Option String) (d : DownloadRow) (file source : Bytes)
    (v : VersionVector) (s : Store)
    → select_download path peer s.db.downloads ≡ some d
    → d.path ≡ path
    → d.peer ≡ peer
    → find_file d.temp s.disk.stage ≡ some file
    → greater_equal (download_version path peer s.db.downloads_v []) v ≡ false
    → IsMap v
    → let after = add_download mkstemp peer path (pos (length source)) v s in
      Receiving source path peer (d.tx +ℤ pos 1) d.temp v 0 after
      × (after.disk.root ≡ s.disk.root)
      × (after.db.version ≡ s.db.version)
      × (after.db.files ≡ s.db.files)
unfolding add_download restart_download truncate temp_of
add_download-restart path peer mkstemp d file source v s there e f staged older m =
    let first : Db = record s.db {
      downloads = restart path peer (pos (length source)) s.db.downloads;
      downloads_v = delete_download_v path peer s.db.downloads_v;
    } in
    let (after, done, read, same_downloads, same_version, same_files) =
      insert_download_v_lem path peer [] v first
        (download_version-delete path peer s.db.downloads_v []) (HeadAbove-nil v) m in
    let row =
      ap (select_download path peer) same_downloads
      ∙ select_download-restart path peer (pos (length source)) s.db.downloads d there in
    rw (there, older, add_download, done, row)
      (rw (staged, truncate)
        ((
          record {
            row =
                row
                ∙ ap
                    (λ q. some (record (row_at path peer (d.tx +ℤ pos 1) d.temp 0 (length source)) {
                      path = q;
                      peer = d.peer;
                    }))
                    e
                ∙ ap
                    (λ q. some (record (row_at path peer (d.tx +ℤ pos 1) d.temp 0 (length source)) {
                      peer = q;
                    }))
                    f;
            staged = resize (pos (length source)) file;
            found =
                find_file-set_file d.temp d.temp (resize (pos (length source)) file) s.disk.stage
                ∙ ground (arith, eq_refl d.temp);
            same_size = length-resize (length source) file;
            start = refl;
            version = read;
            within = omega arith;
          },
          refl,
          same_version,
          same_files,
        )))
