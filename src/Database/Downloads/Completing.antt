-- ===== src/Database/Downloads/Completing.antt =====
-- `mergeData` of the next chunk in order, and of the last one.
use text.Mathlib.TextPositions.{eq_refl}
use openbookfs.Prelude.{
  ℕ, ◌+◌, ◌<◌, ℤ, pos, ◌+ℤ◌, String, ◌≡◌, refl, sym, ap, subst, ◌∙◌, true, false, ltb_ℤ, [], none,
  some, arith, length, take, drop, take_all, lt→ltb_ℤ, ge→ltb_ℤ,
}
use openbookfs.VersionVector.{VersionVector, less}
use openbookfs.Database.{FilePath}
use openbookfs.Database.Versions.{get_version, set_version}
use openbookfs.Database.Downloads.{
  Bytes, Store, find_file, set_file, remove_file, write_at, select_download, delete_download,
  delete_download_v, download_version,
}
use openbookfs.Database.Downloads.Handlers.{complete_download, merge_data}
use openbookfs.Database.Downloads.Rows.{write_at-next}
use openbookfs.Database.Downloads.Receiving.{
  Receiving, working, row_at, chunk_at, written, merge_data-found, find_file-set_file,
  select_download-delete, select_download-set_recd,
}

pub sum_pos : (a b : ℕ) → pos a +ℤ pos b ≡ pos (a + b)
unfolding ◌+ℤ◌
sum_pos a b = ground arith

abbrev pub slice : ℕ → ℕ → Bytes → Bytes
slice offset n source = take n (drop offset source)

module _ (junk : ℕ) (source : Bytes) (path : FilePath) (peer tx sent : ℤ) (temp : String)
    (offset : ℕ) (bytes file : Bytes) (s : Store) where
  merge_data-part :
      select_download path peer s.db.downloads
        ≡ some (row_at path peer tx temp offset (length source))
      → find_file temp s.disk.stage ≡ some file
      → offset + length bytes < length source
      → merge_data junk (working bytes) peer (chunk_at path sent offset bytes) s
        ≡ written path peer temp offset bytes file s
  merge_data-part row found h =
      let part : ltb_ℤ (pos offset +ℤ pos (length bytes)) (pos (length source)) ≡ true =
        lt→ltb_ℤ (pos offset +ℤ pos (length bytes)) (pos (length source))
          (rw (sum_pos offset (length bytes)) (omega arith)) in
      merge_data-found junk source path peer tx sent temp offset bytes file s row found
      ∙ (rw part refl)

  merge_data-full :
      select_download path peer s.db.downloads
        ≡ some (row_at path peer tx temp offset (length source))
      → find_file temp s.disk.stage ≡ some file
      → offset + length bytes ≡ length source
      → merge_data junk (working bytes) peer (chunk_at path sent offset bytes) s
        ≡ complete_download junk
            (working bytes)
            path
            peer
            temp
            (write_at offset bytes file)
            (written path peer temp offset bytes file s)
  merge_data-full row found h =
      let full : ltb_ℤ (pos offset +ℤ pos (length bytes)) (pos (length source)) ≡ false =
        ge→ltb_ℤ (pos offset +ℤ pos (length bytes)) (pos (length source))
          (rw (sum_pos offset (length bytes)) (omega arith)) in
      merge_data-found junk source path peer tx sent temp offset bytes file s row found
      ∙ (rw full refl)

written-Receiving :
    (n : ℕ) (source : Bytes) (path : FilePath) (peer tx : ℤ) (temp : String) (v : VersionVector)
    (offset : ℕ) (s : Store) (r : Receiving source path peer tx temp v offset s)
    → let bytes = slice offset n source in
      Receiving source path peer tx temp v
        (offset + length bytes)
        (written path peer temp offset bytes r.staged s)
written-Receiving n source path peer tx temp v offset s r =
    let bytes = slice offset n source in
    let (start, size, fits) = write_at-next offset n source r.staged r.same_size r.within r.start in
    record {
      row =
          select_download-set_recd path peer (pos offset +ℤ pos (length bytes)) s.db.downloads
            (row_at path peer tx temp offset (length source)) r.row
          ∙ ap (λ q. some (record (row_at path peer tx temp offset (length source)) { recd = q }))
              (sum_pos offset (length bytes));
      staged = write_at offset bytes r.staged;
      found =
          find_file-set_file temp temp (write_at offset bytes r.staged) s.disk.stage
          ∙ ground (arith, eq_refl temp);
      same_size = size;
      start = start;
      version = r.version;
      within = fits;
    }

-- The next chunk of the file in order, not the last one: one more part of it has been received, and
-- nothing else has changed.
pub merge_data-next :
    (junk n : ℕ) (source : Bytes) (path : FilePath) (peer tx sent : ℤ) (temp : String)
    (v : VersionVector) (offset : ℕ) (s : Store)
    → Receiving source path peer tx temp v offset s
    → offset + length (slice offset n source) < length source
    → let bytes = slice offset n source in
      let after = merge_data junk (working bytes) peer (chunk_at path sent offset bytes) s in
      Receiving source path peer tx temp v (offset + length bytes) after
      × (after.disk.root ≡ s.disk.root)
      × (after.db.version ≡ s.db.version)
      × (after.db.files ≡ s.db.files)
merge_data-next junk n source path peer tx sent temp v offset s r h =
    let step =
      merge_data-part junk source path peer tx sent temp offset (slice offset n source) r.staged s
        r.row r.found h in
    (
      subst (Receiving source path peer tx temp v (offset + length (slice offset n source)))
          (sym step) (written-Receiving n source path peer tx temp v offset s r),
      ap (λ t. t.disk.root) step,
      ap (λ t. t.db.version) step,
      ap (λ t. t.db.files) step,
    )

complete_download-newer :
    (junk : ℕ) (bytes content : Bytes) (path : FilePath) (peer : ℤ) (temp : String) (s : Store)
    → less (get_version junk path s.db []) (download_version path peer s.db.downloads_v []) ≡ true
    → complete_download junk (working bytes) path peer temp content s ≡ (
        let db = set_version junk path (download_version path peer s.db.downloads_v []) s.db in
        record {
          db = record db {
            downloads = delete_download path peer db.downloads;
            downloads_v = delete_download_v path peer db.downloads_v;
          };
          disk = record {
            stage = remove_file temp s.disk.stage;
            root = set_file path content s.disk.root;
          };
        })
unfolding complete_download
complete_download-newer junk bytes content path peer temp s h = rw (h, complete_download) refl

-- The chunk that completes the file: the file stands under its path with all of its contents, the
-- version of the peer is stored, and the download is deleted.
pub merge_data-last :
    (junk n : ℕ) (source : Bytes) (path : FilePath) (peer tx sent : ℤ) (temp : String)
    (v : VersionVector) (offset : ℕ) (s : Store)
    → Receiving source path peer tx temp v offset s
    → offset + length (slice offset n source) ≡ length source
    → less (get_version junk path s.db []) v ≡ true
    → let bytes = slice offset n source in
      let after = merge_data junk (working bytes) peer (chunk_at path sent offset bytes) s in
      (find_file path after.disk.root ≡ some source)
      × (select_download path peer after.db.downloads ≡ none)
      × (after.db.version ≡ (set_version junk path v s.db).version)
      × (after.db.files ≡ s.db.files)
unfolding set_version get_version
merge_data-last junk n source path peer tx sent temp v offset s r h newer =
    let bytes = slice offset n source in
    let content = write_at offset bytes r.staged in
    let w = written path peer temp offset bytes r.staged s in
    let (start, size, _) = write_at-next offset n source r.staged r.same_size r.within r.start in
    let whole : content ≡ source =
      sym (take_all (offset + length bytes) content (omega arith))
      ∙ start
      ∙ take_all (offset + length bytes) source (omega arith) in
    let step =
      merge_data-full junk source path peer tx sent temp offset bytes r.staged s r.row r.found h
      ∙ complete_download-newer junk bytes content path peer temp w
          (subst (λ q. less (get_version junk path s.db []) q ≡ true) (sym r.version) newer) in
    (
      ap (λ t. find_file path t.disk.root) step
          ∙ find_file-set_file path path content s.disk.root
          ∙ ground (arith, eq_refl path, whole),
      ap (λ t. select_download path peer t.db.downloads) step
          ∙ select_download-delete path peer w.db.downloads,
      ap (λ t. t.db.version) step ∙ ap (λ q. (set_version junk path q s.db).version) r.version,
      ap (λ t. t.db.files) step,
    )
