-- ===== src/Tests/Moves.antt =====
-- backend/FuseContext.cpp: names that move and directories that are opened, in the tables of a small tree.
use openbookfs.Prelude.{◌≡◌, refl, true, false, [], some, none}
use openbookfs.Database.View.{view}
use openbookfs.Database.Files.{select_id, clashes}
use openbookfs.FileMap.{make, descending, fetch, take_handle, register_file}
use openbookfs.Fuse.{Mount, done, register}
use openbookfs.Fuse.Names.{rename, getattr, unlink_node, empty_file, opendir}
use openbookfs.Fuse.Moving.{rename_lem, getattr-unlink_node}
use openbookfs.Tests.Tables.{noted, flat, here, noted-IsValid}

program : Unit {0}
unfolding select_id clashes descending make fetch take_handle register_file register opendir
program = tt

abbrev mount : Mount
mount = record { files = make 3; db = noted }

rename_lem_example :
    view (rename flat 99 false (some 0) "/notes" "/new" mount).1.db "/notes" ≡ some (false, [])
rename_lem_example =
    rename_lem flat 99 0 "/notes" "/new" "/notes" mount 1 2 noted-IsValid (unfold program in refl)
      (unfold program in refl) (unfold program in refl)

getattr-unlink_node_example :
    let (reply, after) = unlink_node 99 true true "/notes" mount in
    (reply ≡ done 0)
    × (select_id "/notes" after.db.files ≡ some 2)
    × (getattr here true "" none "/notes" after ≡ (done 0, empty_file))
getattr-unlink_node_example =
    getattr-unlink_node here 99 true "" "/notes" mount 2 (unfold program in refl) refl
