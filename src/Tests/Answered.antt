-- ===== src/Tests/Answered.antt =====
-- A deletion through the interceptor, at a concrete input.
use csi_driver_flexblock.Sys.{sleep}
use csi_driver_flexblock.Driver.Create.{
  make_target, format, create_local, new_volume, prepare, create_flexblock_volume,
}
use csi_driver_flexblock.Tests.Instances.{in_order}
use csi_driver_flexblock.Controller.Create.{
  requested_access, any_mount, any_block, topologies, populate, populate_or_delete, fresh_volume,
  create_or_reuse, create_volume,
}
use csi_driver_flexblock.Spec.Promised.{Promised}
use csi_driver_flexblock.Spec.Gone.{gone-serve}
use csi_driver_flexblock.Tests.Served.{differs, elsewhere}
use csi_driver_flexblock.Volume.{lookup, value_of}
use csi_driver_flexblock.Paths.{get_volume_path}
use csi_driver_flexblock.Driver.Disk.{
  size_in_mib, local_disk, next_tid, local_iqn, checked, tid_of_match,
}
use csi_driver_flexblock.Store.{
  put_volume, find_volume_name, get_volume_by_name, save_existing_vol, drop_volume,
}
use csi_driver_flexblock.Http.{setting}
use csi_driver_flexblock.Remote.Cluster.{get_cluster_id}
use csi_driver_flexblock.Go.{attempt, optional, ok, maybe, require, modify, pure, ◌>>=◌, gets, wrap}
use csi_driver_flexblock.Driver.Delete.{
  delete_target, delete_local, unmount_volume, tear_down, delete_and_store, delete_flexblock_volume,
}
use csi_driver_flexblock.Prelude.Text.{byte_width, byte_size, skip_bytes, cut_last, contains, size}
use csi_driver_flexblock.Driver.Disk.{tid_of_match, digits_colon, find_target_digits}
use csi_driver_flexblock.Spec.Answers.{Promised-handle}
use csi_driver_flexblock.Controller.{has_rpc, validate_request}
use csi_driver_flexblock.Controller.Volumes.{delete_volume}
use csi_driver_flexblock.Tests.{fresh_state, create_request, one_volume, calm, servers}
use csi_driver_flexblock.Env.{Env}
use csi_driver_flexblock.Spec.View.{view}
use csi_driver_flexblock.Server.{log_outcome, log_around, log_grpc}
use csi_driver_flexblock.Prelude.{none, ◌≡◌, refl, ◌∷◌, []}
use csi_driver_flexblock.Rpc.{create_volume_rpc, handle, handler, delete_volume_rpc, serve}
use csi_driver_flexblock.Sys.{
  sleep, read_file, open_write, write_volumes, remove_all, mkdir_all, run, log,
}

abbrev shown_with : Env
shown_with = calm "Target 1: iqn.2017-10-30.kx.flexcsi-a1"

deletion_run : (handle shown_with 5 servers (delete_volume_rpc "a1") one_volume).0 ≡ ok tt
unfolding handle handler log_grpc log_around log_outcome log delete_volume validate_request has_rpc
    find_target_digits digits_colon size byte_size byte_width delete_flexblock_volume
    delete_and_store tear_down unmount_volume wrap get_cluster_id setting gets ◌>>=◌ pure modify
    drop_volume save_existing_vol delete_local delete_target tid_of_match checked run require maybe
    mkdir_all remove_all get_volume_path contains value_of lookup cut_last write_volumes open_write
    local_iqn
deletion_run = refl

creation_run : (handle (calm "") 5 servers (create_volume_rpc create_request) fresh_state).0 ≡ ok tt
unfolding handle handler log_grpc log_around log_outcome log byte_size byte_width create_volume
    create_or_reuse fresh_volume populate_or_delete populate topologies read_file validate_request
    optional attempt get_volume_by_name find_volume_name any_block any_mount requested_access
    has_rpc skip_bytes create_flexblock_volume prepare wrap get_cluster_id setting gets ◌>>=◌ pure
    modify put_volume save_existing_vol new_volume create_local format make_target checked run
    require maybe next_tid mkdir_all sleep get_volume_path local_disk contains value_of lookup
    cut_last write_volumes open_write local_iqn size_in_mib
creation_run = refl

Promised-handle_example :
    Promised
      (create_volume_rpc create_request)
      []
      (handle (calm "") 5 servers (create_volume_rpc create_request) fresh_state).1.volumes
Promised-handle_example =
    Promised-handle (calm "") 5 servers (create_volume_rpc create_request) fresh_state in_order
      creation_run

gone-serve_example :
    view (serve shown_with 5 servers (delete_volume_rpc "a1" ∷ elsewhere) one_volume).volumes "a1"
    ≡ none
unfolding skip_bytes byte_width
gone-serve_example =
    gone-serve shown_with 5 servers "a1" elsewhere one_volume deletion_run
      (differs "b2" "a1" refl, (differs "c3" "a1" refl, tt))
