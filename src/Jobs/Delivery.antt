-- ===== src/Jobs/Delivery.antt =====
-- A whole transfer, from `addDownload` at the receiver to the last chunk, and what can end it early.
use openbookfs.Prelude.{
  ℕ, ◌+◌, ◌<◌, ◌≤◌, ℤ, pos, ◌+ℤ◌, String, ◌≡◌, refl, sym, ap, subst, ◌∙◌, true, false, lt→ltb_ℤ,
  List, [], ◌∷◌, ◌++◌, Option, none, some, arith, length, inl, inr, ℕ-cases,
}
use openbookfs.VersionVector.{VersionVector, not_equal, less, greater_equal}
use openbookfs.VersionVector.Sorted.{IsMap}
use openbookfs.Database.{FilePath, DownloadRow}
use openbookfs.Database.Versions.{get_version}
use openbookfs.Database.Downloads.{Bytes, Store, find_file, select_download, download_version}
use openbookfs.Database.Downloads.Handlers.{merge_data, add_download}
use openbookfs.Database.Downloads.Receiving.{Receiving, working, chunk_at}
use openbookfs.Database.Downloads.Completing.{slice, merge_data-next}
use openbookfs.Database.Downloads.Starting.{add_download-new, add_download-restart}
use openbookfs.Jobs.{Round, complete, failed, running, min_1024, read_bytes, send_loop, send_file}
use openbookfs.Jobs.Transfer.{
  AllSteady, Transferred, deliver, get_version-same, send_loop-Transferred, send_loop-IsSteady,
  send_loop-end,
}

-- A file that is not empty and that the receiver has just registered is transferred: when all chunks
-- of the job have been delivered in order, the receiver has its contents under the path, the version
-- `v` that it registered is stored, and the download is gone. Nothing fails, the file and its version
-- stay as they are at the sender, each read delivers at least one byte, and the version that the
-- receiver has is less than `v`. One round for each byte is enough.
pub transfer_new :
    (junk : ℕ) (path : FilePath) (peer sent : ℤ) (temp : String) (version v : VersionVector)
    (source : Bytes) (rounds : List Round) (s : Store)
    → AllSteady source version rounds
    → select_download path peer s.db.downloads ≡ none
    → download_version path peer s.db.downloads_v [] ≡ []
    → IsMap v
    → 0 < length source
    → length source ≤ length rounds
    → less (get_version junk path s.db []) v ≡ true
    → Transferred source path peer v junk
        (add_download (some temp) peer path (pos (length source)) v s)
        (send_file path sent version (some (length source)) rounds (pos 0))
unfolding send_file
transfer_new junk path peer sent temp version v source rounds s steady fresh none_stored m full
      enough newer =
    let after = add_download (some temp) peer path (pos (length source)) v s in
    let (ready, _, same_version, same_files) =
      add_download-new path peer temp source v s fresh none_stored m in
    send_loop-Transferred junk path peer (pos 0) sent temp version v source rounds 0 after steady
      ready full (omega arith)
      (subst (λ q. less q v ≡ true)
        (sym (get_version-same junk path after.db s.db same_version same_files)) newer)

-- A file that is not empty is transferred, as a whole, if the receiver has a download of it for a
-- version that is not as new: that download starts again, and what had been received of the older
-- version does not matter. Nothing fails, the staged file is there, the file and its version stay as
-- they are at the sender, each read delivers at least one byte, and the version that the receiver has
-- is less than the new one. One round for each byte is enough.
pub transfer_restart :
    (junk : ℕ) (path : FilePath) (peer sent : ℤ) (mkstemp : Option String) (d : DownloadRow)
    (version v : VersionVector) (file source : Bytes) (rounds : List Round) (s : Store)
    → AllSteady source version rounds
    → select_download path peer s.db.downloads ≡ some d
    → d.path ≡ path
    → d.peer ≡ peer
    → find_file d.temp s.disk.stage ≡ some file
    → greater_equal (download_version path peer s.db.downloads_v []) v ≡ false
    → IsMap v
    → 0 < length source
    → length source ≤ length rounds
    → less (get_version junk path s.db []) v ≡ true
    → Transferred source path peer v junk
        (add_download mkstemp peer path (pos (length source)) v s)
        (send_file path sent version (some (length source)) rounds (pos 0))
unfolding send_file
transfer_restart junk path peer sent mkstemp d version v file source rounds s steady there e f
      staged older m full enough newer =
    let after = add_download mkstemp peer path (pos (length source)) v s in
    let (ready, _, same_version, same_files) =
      add_download-restart path peer mkstemp d file source v s there e f staged older m in
    send_loop-Transferred junk path peer (d.tx +ℤ pos 1) sent d.temp version v source rounds 0 after
      steady ready full (omega arith)
      (subst (λ q. less q v ≡ true)
        (sym (get_version-same junk path after.db s.db same_version same_files)) newer)

-- An empty file is never transferred: the job sends nothing, and the receiver keeps the download and
-- the file that it had.
pub transfer_empty :
    (junk : ℕ) (path : FilePath) (peer sent : ℤ) (temp : String) (version v : VersionVector)
    (rounds : List Round) (s : Store)
    → select_download path peer s.db.downloads ≡ none
    → download_version path peer s.db.downloads_v [] ≡ []
    → IsMap v
    → let (chunks, end) = send_file path sent version (some 0) rounds (pos 0) in
      let after = deliver junk peer chunks (add_download (some temp) peer path (pos 0) v s) in
      (end ≡ complete)
      × Receiving [] path peer (pos 0) temp v 0 after
      × (after.disk.root ≡ s.disk.root)
      × (after.db.version ≡ s.db.version)
unfolding send_file deliver
transfer_empty junk path peer sent temp version v rounds s fresh none_stored m =
    let (ready, same_root, same_version, _) =
      add_download-new path peer temp [] v s fresh none_stored m in
    rw (send_loop-end path sent version rounds 0 0 (omega arith))
      ((refl, ready, same_root, same_version))

not_both : ¬ (complete ≡ running)
not_both e = cc

read_bytes-changed :
    (version : VersionVector) (offset : ℤ) (r : Round)
    → not_equal r.version version ≡ true
    → read_bytes version offset r ≡ none
unfolding read_bytes
read_bytes-changed version offset r other = rw (other, read_bytes) refl

send_loop-changed :
    (path : FilePath) (tx : ℤ) (version : VersionVector) (size offset : ℕ) (r : Round)
    (rs : List Round)
    → not_equal r.version version ≡ true
    → offset < size
    → send_loop path tx version (pos size) (r ∷ rs) (pos offset) ≡ ([], failed)
unfolding send_loop
send_loop-changed path tx version size offset r rs other inside =
    rw
      (
        lt→ltb_ℤ (pos offset) (pos size) (omega arith),
        read_bytes-changed version (pos offset) r other,
        send_loop,
      )
      refl

-- What the receiver has before the file is complete: a part of it, and the files as they were.
abbrev pub Untouched : Bytes → FilePath → ℤ → ℤ → String → VersionVector → Store → Store → Type 0
Untouched source path peer tx temp v s after =
    ((offset : ℕ) × Receiving source path peer tx temp v offset after)
    × (after.disk.root ≡ s.disk.root)
    × (after.db.version ≡ s.db.version)

-- A job that finds another version of the file than the one that was asked for stops, and the
-- receiver has its files as they were, whatever part of the file it has received. The rounds before
-- are steady and do not send the whole file.
pub transfer_changed :
    (junk : ℕ) (path : FilePath) (peer tx sent : ℤ) (temp : String) (version v : VersionVector)
    (source : Bytes) (before after : List Round) (changed : Round) (offset : ℕ) (s : Store)
    → AllSteady source version before
    → not_equal changed.version version ≡ true
    → Receiving source path peer tx temp v offset s
    → offset < length source
    → (send_loop path sent version (pos (length source)) before (pos offset)).1 ≡ running
    → let (chunks, end) =
        send_loop path sent version
          (pos (length source))
          (before ++ changed ∷ after)
          (pos offset) in
      (end ≡ failed) × Untouched source path peer tx temp v s (deliver junk peer chunks s)
unfolding deliver
transfer_changed junk path peer tx sent temp version v source [] after changed offset s steady other
      r inside stopped =
    rw (send_loop-changed path sent version (length source) offset changed after other inside)
      ((refl, ((offset, r), refl, refl)))
transfer_changed junk path peer tx sent temp version v source (t ∷ ts) after changed offset s
      (now, later) other r inside stopped =
    let n = min_1024 now.bytes_read in
    let bytes = slice offset n source in
    let next = merge_data junk (working bytes) peer (chunk_at path sent offset bytes) s in
    let still =
      ap (λ q. q.1) (sym (send_loop-IsSteady path sent version source t ts offset now inside))
      ∙ stopped in
    elim (ℕ-cases (offset + length bytes) (length source)) [
      | inr rest ↦
          let ended =
            ap (λ q. q.1)
              (send_loop-end path sent version ts (length source) (offset + length bytes) rest) in
          absurd (not_both (sym ended ∙ still))
      | inl part ↦
          let (received, same_root, same_version, _) =
            merge_data-next junk n source path peer tx sent temp v offset s r part in
          let (ends, (got, root, stored)) =
            transfer_changed junk path peer tx sent temp version v source ts after changed
              (offset + length bytes) next later other received part still in
          rw
            (send_loop-IsSteady path sent version source t (ts ++ changed ∷ after) offset now
              inside)
            ((ends, (got, root ∙ same_root, stored ∙ same_version)))
    ]
