-- ===== src/Tests/Runs.antt =====
-- Runs on concrete inputs.
use csi_driver_flexblock.Driver.Load.{load_from_filesystem_volume, copy_volume, load_from_volume}
use csi_driver_flexblock.Controller.{has_rpc, validate_request}
use csi_driver_flexblock.Driver.Update.{
  resize_file_system, resize_local, resize, resize_and_store, update_flexblock_volume,
}
use csi_driver_flexblock.Controller.Create.{
  created, requested_access, any_mount, any_block, topologies, populate, populate_or_delete,
  fresh_volume, create_or_reuse, create_volume,
}
use csi_driver_flexblock.Controller.Volumes.{grow, controller_expand_volume}
use csi_driver_flexblock.Endpoint.{parse_endpoint}
use csi_driver_flexblock.Driver.Delete.{
  delete_target, delete_local, unmount_volume, tear_down, delete_and_store, delete_flexblock_volume,
}
use csi_driver_flexblock.Prelude.Int.{pos}
use csi_driver_flexblock.Tests.{
  clone_request, create_request, controller, one_volume, a1, fresh_state, calm,
}
use csi_driver_flexblock.Volume.{erase, insert, mount_access, lookup, value_of}
use csi_driver_flexblock.Prelude.Text.{
  skip_bytes, byte_width, byte_size, size, lower, has_prefix_fold, skip, cut_last, strip_prefix,
  cut, ◌<>◌, split, contains,
}
use csi_driver_flexblock.Paths.{get_volume_path}
use csi_driver_flexblock.Sys.{
  read_one, remove_all, read_file, open_write, write_volumes, sleep, mkdir_all, run,
}
use csi_driver_flexblock.Driver.Disk.{
  digits_colon, find_target_digits, tid_of_match, size_in_mib, local_iqn, local_disk, next_tid,
  checked,
}
use csi_driver_flexblock.Store.{
  find_volume_name, get_volume_by_name, drop_volume, get_volume_by_id, save_existing_vol,
  put_volume,
}
use csi_driver_flexblock.Http.{setting}
use csi_driver_flexblock.Remote.Cluster.{get_cluster_id}
use csi_driver_flexblock.Go.{attempt, optional, ok, maybe, require, modify, pure, ◌>>=◌, gets, wrap}
use csi_driver_flexblock.Driver.Create.{
  make_target, format, create_local, new_volume, prepare, create_flexblock_volume,
}
use csi_driver_flexblock.Prelude.{refl, [], ◌∷◌, true, some, ◌≡◌, false}

create_run :
    (create_flexblock_volume
      (calm "")
      5
      "a1"
      "pvc-a1"
      (pos 1048576)
      mount_access
      false
      fresh_state).0
    ≡ ok a1
unfolding create_flexblock_volume prepare wrap get_cluster_id setting gets ◌>>=◌ pure modify
    put_volume save_existing_vol new_volume create_local format make_target checked run require
    maybe next_tid mkdir_all sleep get_volume_path local_disk contains value_of lookup split ◌<>◌
    cut strip_prefix cut_last write_volumes open_write local_iqn size_in_mib
create_run = refl

delete_run :
    (delete_flexblock_volume (calm "Target 1: iqn.2017-10-30.kx.flexcsi-a1") "a1" one_volume).0
    ≡ ok tt
unfolding find_target_digits digits_colon size byte_size byte_width delete_flexblock_volume
    delete_and_store tear_down unmount_volume wrap get_cluster_id setting gets ◌>>=◌ pure modify
    drop_volume save_existing_vol delete_local delete_target tid_of_match checked run require maybe
    mkdir_all remove_all get_volume_path contains value_of lookup cut_last write_volumes open_write
    local_iqn
delete_run = refl

endpoint_run : parse_endpoint "UNIX://csi/csi.sock" ≡ ok ("UNIX", "csi/csi.sock")
unfolding parse_endpoint cut strip_prefix has_prefix_fold lower
endpoint_run = refl

expand_run :
    (controller_expand_volume (calm "") "a1" (some (pos 2097152)) one_volume).0
    ≡ ok (record { capacity_bytes = pos 2097152; node_expansion_required = true })
unfolding controller_expand_volume get_volume_by_id grow update_flexblock_volume resize_and_store
    resize resize_local resize_file_system checked run require maybe wrap get_cluster_id setting
    gets ◌>>=◌ pure modify put_volume save_existing_vol mkdir_all open_write write_volumes local_iqn
    local_disk size_in_mib value_of lookup
expand_run = refl

pub create_rpc_run :
    (create_volume (calm "") 5 controller create_request fresh_state).0
    ≡ ok (created create_request "a1" (pos 1048576) ("node1" ∷ []))
unfolding size byte_size byte_width create_volume create_or_reuse fresh_volume populate_or_delete
    populate topologies read_file validate_request optional attempt get_volume_by_name
    find_volume_name any_block any_mount requested_access has_rpc skip skip_bytes
    create_flexblock_volume prepare wrap get_cluster_id setting gets ◌>>=◌ pure modify put_volume
    save_existing_vol new_volume create_local format make_target checked run require maybe next_tid
    mkdir_all sleep get_volume_path local_disk contains value_of lookup cut_last write_volumes
    open_write local_iqn size_in_mib
create_rpc_run = refl

pub clone_run :
    (create_volume (calm "") 5 controller clone_request one_volume).0
    ≡ ok (created clone_request "b2" (pos 2097152) ("node1" ∷ []))
unfolding load_from_volume copy_volume load_from_filesystem_volume read_one insert erase ◌<>◌ size
    byte_size byte_width create_volume create_or_reuse fresh_volume populate_or_delete populate
    topologies read_file validate_request optional attempt get_volume_by_name find_volume_name
    any_block any_mount requested_access has_rpc skip skip_bytes create_flexblock_volume prepare
    wrap get_cluster_id setting gets ◌>>=◌ pure modify put_volume save_existing_vol new_volume
    create_local format make_target checked run require maybe next_tid mkdir_all sleep
    get_volume_path local_disk contains value_of lookup cut_last write_volumes open_write local_iqn
    size_in_mib
clone_run = refl
