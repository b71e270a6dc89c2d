-- ===== src/Fuse/Moving.antt =====
-- backend/FuseContext.cpp: rename, unlink and the directories of a mount, as changes of the tables.
use openbookfs.Prelude.{negsuc, Option-cases, inl, inr}
use openbookfs.Prelude.{
  pos, ℕ, zero, suc, str_eq, ◌≡◌, refl, sym, ap, subst, ◌∙◌, Bool, true, false, if◌then◌else◌, [],
  ◌∷◌, none, some, arith,
}
use openbookfs.Database.{FilePath, Paths}
use openbookfs.Database.Files.{select_id, clashes, mknod, is_subscribed}
use openbookfs.Database.Files.Lookup.{IsValid}
use openbookfs.Database.Making.{mknod_lem, unlink-select, mknod-IsValid, select_id-mknod}
use openbookfs.Database.Lifecycle.{unlink_lem}
use openbookfs.Database.View.{view}
use openbookfs.FileMap.{register_file}
use openbookfs.FileMap.Handles.{IsStore, Registers, register_file_lem}
use openbookfs.Fuse.Session.{Opened, with_file, context, release-with_file, Registration-Opened}
use openbookfs.Fuse.{Mount, done, release, register}
use openbookfs.Fuse.Names.{rename, unlink_node, getattr, empty_file, opendir, releasedir}

-- Moving a file to a name that is free, in a directory that has a row: the old name is unlinked, the new
-- one is subscribed at the version (0:0), and every other path looks as before.
pub rename_lem :
    (paths : Paths) (junk n : ℕ) (oldpath newpath other : FilePath) (s : Mount) (parent id : ℕ)
    → IsValid s.db
    → select_id (paths.parent_path newpath) s.db.files ≡ some parent
    → clashes parent (paths.filename newpath) newpath s.db.files ≡ false
    → select_id oldpath s.db.files ≡ some id
    → view (rename paths junk false (some n) oldpath newpath s).1.db other ≡ (
        if str_eq other oldpath
        then some (false, [])
        else if str_eq other newpath
        then some (true, (pos 0, pos 0) ∷ [])
        else view s.db other)
unfolding rename
rename_lem paths junk n oldpath newpath other s parent id valid found free known =
    unlink_lem junk oldpath other (mknod paths newpath s.db) id
      (mknod-IsValid paths newpath s.db parent valid found free)
      (select_id-mknod paths newpath oldpath s.db parent id valid found free known)
    ∙ ap (λ v. if str_eq other oldpath then some (false, []) else v)
        (mknod_lem paths newpath other s.db parent valid found free)

-- In a mount of the root, where the path in the mount is the path in the tables: a file that is there and
-- whose contents are removed without an exception is unlinked with success and keeps its row. When the
-- system does not find it any more, its attributes are still those of an empty regular file, and the call
-- succeeds.
pub getattr-unlink_node :
    (paths : Paths) (junk : ℕ) (junk_subscribed : Bool) (rel_dir path : FilePath) (s : Mount)
    (id : ℕ)
    → select_id path s.db.files ≡ some id
    → paths.join rel_dir path ≡ path
    → let (reply, after) = unlink_node junk true true path s in
      (reply ≡ done 0)
      × (select_id path after.db.files ≡ some id)
      × (getattr paths junk_subscribed rel_dir none path after ≡ (done 0, empty_file))
unfolding getattr unlink_node is_subscribed
getattr-unlink_node paths junk junk_subscribed rel_dir path s id known same =
    let (row, off) = unlink-select junk path s.db id known in
    (refl, row, rw (same, is_subscribed, off) refl)

opendir-Opened :
    (fd : ℕ) (path : FilePath) (s : Mount)
    → IsStore s.files
    → (opendir path s).1 ≡ some fd
    → Opened path (negsuc 0) fd s (opendir path s).2
unfolding opendir register
opendir-Opened fd path s v h = elim (Option-cases (register_file path (negsuc 0) s.files)) [
  | inl full ↦ absurd (ground (arith, full))
  | inr ((got, after), registered) ↦
      let same : got ≡ fd = ground (arith, registered) in
      rw (registered, opendir, register)
        (subst (λ q. Opened path (negsuc 0) q s (record { files = after; db = s.db })) same
          (Registration-Opened path (negsuc 0) got s after (
            subst (Registers path (negsuc 0) s.files) registered
              (register_file_lem path (negsuc 0) s.files v))))
]

-- `releasedir` does what `release` does.
releasedir-release : (junk fd : ℕ) (s : Mount) → releasedir junk fd s ≡ release junk fd s
unfolding releasedir release
releasedir-release junk zero s = refl
releasedir-release junk (suc i) s = refl

-- A directory that is opened and released leaves the mount as it was. The handle is not 0.
pub releasedir-opendir :
    (junk i : ℕ) (path : FilePath) (s : Mount)
    → IsStore s.files
    → (opendir path s).1 ≡ some (suc i)
    → releasedir junk (suc i) (opendir path s).2 ≡ (done 0, s)
releasedir-opendir junk i path s v h =
    let (was_free, (rest, free, opened)) = opendir-Opened (suc i) path s v h in
    let vec = s.files.file_vec in
    ap (releasedir junk (suc i)) opened
    ∙ releasedir-release junk (suc i)
        (with_file (suc i) (context path (negsuc 0) false) vec rest s.db)
    ∙ release-with_file junk i (context path (negsuc 0) false) vec rest s.db was_free
    ∙ ap (λ l. (done 0, record { files = record { file_vec = vec; free_store = l }; db = s.db }))
        (sym free)
