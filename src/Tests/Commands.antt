-- ===== src/Tests/Commands.antt =====
-- The commands of a creation and of a deletion in local mode, at concrete inputs.
use csi_driver_flexblock.Driver.Repeat.{delete_again}
use csi_driver_flexblock.Prelude.Text.{strip_prefix}
use csi_driver_flexblock.Paths.{get_volume_path}
use csi_driver_flexblock.Sys.{open_write, write_volumes, remove_all, sleep, mkdir_all}
use csi_driver_flexblock.Sys.{run}
use csi_driver_flexblock.Store.{save_existing_vol, drop_volume, put_volume}
use csi_driver_flexblock.Driver.Commands.Prefix.{create-blocked, is_ok}
use csi_driver_flexblock.Http.{setting}
use csi_driver_flexblock.Driver.Delete.{
  delete_target, delete_local, unmount_volume, tear_down, delete_and_store, delete_flexblock_volume,
}
use csi_driver_flexblock.Remote.Cluster.{get_cluster_id}
use csi_driver_flexblock.Prelude.Int.{pos}
use csi_driver_flexblock.Driver.Commands.WholeDelete.{deleted_in_local_mode, WholeDeletion}
use csi_driver_flexblock.Driver.Commands.Whole.{created_in_local_mode, Whole}
use csi_driver_flexblock.Prelude.Text.{strip_prefix, cut, split, cut_last, contains, size, ◌<>◌}
use csi_driver_flexblock.Tests.{a1, fresh_state, one_volume, calm}
use csi_driver_flexblock.Go.{ok, maybe, require, modify, pure, ◌>>=◌, gets, wrap, Result}
use csi_driver_flexblock.Volume.{mount_access, Volume, lookup, value_of}
use csi_driver_flexblock.Driver.Create.{
  make_target, format, create_local, new_volume, prepare, create_flexblock_volume,
}
use csi_driver_flexblock.Driver.Disk.{
  size_in_mib, local_disk, next_tid, checked, tid_of_match, digits_colon, find_target_digits,
  local_iqn,
}
use csi_driver_flexblock.Env.{Globals, Env}
use csi_driver_flexblock.Prelude.{◌≡◌, false, refl}

abbrev shown_before : Env
shown_before = calm "Target 1: iqn.2017-10-30.kx.flexcsi-b2"

abbrev created_volume : Result Volume × Globals
created_volume =
    create_flexblock_volume shown_before 5 "a1" "pvc-a1" (pos 1048576) mount_access false
      fresh_state

created_run : created_volume.0 ≡ ok a1
unfolding create_flexblock_volume prepare wrap get_cluster_id setting gets ◌>>=◌ pure modify
    put_volume save_existing_vol new_volume create_local format make_target checked run require
    maybe next_tid find_target_digits digits_colon mkdir_all sleep get_volume_path local_disk
    contains value_of lookup split ◌<>◌ cut strip_prefix cut_last write_volumes open_write local_iqn
    size_in_mib
created_run = refl

created_in_local_mode_example :
    Whole shown_before "a1" (pos 1048576) mount_access fresh_state created_volume.1
unfolding value_of lookup
created_in_local_mode_example =
    created_in_local_mode shown_before "a1" (pos 1048576) mount_access 5 "pvc-a1" false fresh_state
      a1 refl created_run

abbrev shown_with : Env
shown_with = calm "Target 1: iqn.2017-10-30.kx.flexcsi-a1"

deleted_run : (delete_flexblock_volume shown_with "a1" one_volume).0 ≡ ok tt
unfolding find_target_digits digits_colon size delete_flexblock_volume delete_and_store tear_down
    unmount_volume wrap get_cluster_id setting gets ◌>>=◌ pure modify drop_volume save_existing_vol
    delete_local delete_target tid_of_match checked run require maybe mkdir_all remove_all
    get_volume_path contains value_of lookup cut_last write_volumes open_write local_iqn
deleted_run = refl

deleted_in_local_mode_example :
    WholeDeletion shown_with "a1" mount_access one_volume
      (delete_flexblock_volume shown_with "a1" one_volume).1
unfolding value_of lookup
deleted_in_local_mode_example =
    deleted_in_local_mode shown_with "a1" a1 one_volume refl refl deleted_run

abbrev shown_longer : Env
shown_longer = calm "Target 1: iqn.2017-10-30.kx.flexcsi-a12 x"

create-blocked_example :
    ((create_flexblock_volume shown_longer 5 "a1" "pvc-a1"
        (pos 1048576)
        mount_access
        false
        one_volume).1.volumes
      ≡ one_volume.volumes)
    × (is_ok
          (create_flexblock_volume shown_longer 5 "a1" "pvc-a1"
            (pos 1048576)
            mount_access
            false
            one_volume).0
        ≡ false)
unfolding local_iqn ◌<>◌ value_of lookup
create-blocked_example =
    create-blocked shown_longer 5 "a1" "2" "Target 1: " " x" "pvc-a1" (pos 1048576) mount_access
      false one_volume refl refl

abbrev deleted_state : Globals
deleted_state = (delete_flexblock_volume shown_with "a1" one_volume).1

delete_again_example :
    delete_flexblock_volume shown_with "a1" deleted_state ≡ (ok tt, deleted_state)
delete_again_example =
    delete_again shown_with "a1" one_volume deleted_state (λ i. (deleted_run i, deleted_state))
