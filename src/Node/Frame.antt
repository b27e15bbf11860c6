-- ===== src/Node/Frame.antt =====
-- What the node does beside creating, deleting and resizing volumes leaves the maps alone.
use csi_driver_flexblock.Driver.Frame.{Frame-checked}
use csi_driver_flexblock.Volume.{Volume}
use csi_driver_flexblock.Remote.Frame.{frame_remote}
use csi_driver_flexblock.Go.Frame.{Frame}
use csi_driver_flexblock.Csi.{no_access, mount_volume, block_volume, NodePublishRequest, Access}
use csi_driver_flexblock.Node.Unpublish.{unmount_target}
use csi_driver_flexblock.Env.{OsError, Env}
use csi_driver_flexblock.Node.Publish.{
  publish_volume, ensure_directory, mount_device, bind_directory, ensure_file, publish_mount,
  publish_block, no_error,
}
use csi_driver_flexblock.Node.{node_stage_volume, node_unstage_volume}
use csi_driver_flexblock.Prelude.{Bool, String, Option}

pub Frame-no_error : (e : Option OsError) → Frame (no_error e)
unfolding no_error
Frame-no_error e = search frame_remote

module _ (env : Env) where
  Frame-ensure_file : (target : String) → Frame (ensure_file env target)
  unfolding ensure_file
  Frame-ensure_file target = search (frame_remote, Frame-no_error) depth 8

  Frame-publish_block : (vol : Volume) (target : String) → Frame (publish_block env vol target)
  unfolding publish_block
  Frame-publish_block vol target = search (frame_remote, Frame-no_error, Frame-ensure_file) depth 10

  Frame-ensure_directory : (target : String) → Frame (ensure_directory env target)
  unfolding ensure_directory
  Frame-ensure_directory target = search (frame_remote, Frame-no_error) depth 8

  Frame-mount_device : (id target : String) → Frame (mount_device env id target)
  unfolding mount_device
  Frame-mount_device id target = search (frame_remote, Frame-checked) depth 9

  Frame-bind_directory :
      (vol : Volume) (path target : String) (readonly : Bool)
      → Frame (bind_directory env vol path target readonly)
  unfolding bind_directory
  Frame-bind_directory vol path target readonly = search frame_remote depth 8

  Frame-publish_mount :
      (vol : Volume) (req : NodePublishRequest) → Frame (publish_mount env vol req)
  unfolding publish_mount
  Frame-publish_mount vol req =
      search (frame_remote, Frame-ensure_directory, Frame-mount_device, Frame-bind_directory) depth
        9

  pub Frame-publish_volume :
      (req : NodePublishRequest) (access : Access) (vol : Volume)
      → Frame (publish_volume env req access vol)
  unfolding publish_volume
  Frame-publish_volume req block_volume vol = Frame-publish_block vol req.target_path
  Frame-publish_volume req mount_volume vol = Frame-publish_mount vol req
  Frame-publish_volume req no_access vol = search frame_remote

  pub Frame-unmount_target : (target : String) → Frame (unmount_target env target)
  unfolding unmount_target
  Frame-unmount_target target = search (frame_remote, Frame-no_error) depth 8

pub Frame-node_stage_volume :
    (id target : String) (access : Option Access) → Frame (node_stage_volume id target access)
unfolding node_stage_volume
Frame-node_stage_volume id target access = search frame_remote

pub Frame-node_unstage_volume : (id target : String) → Frame (node_unstage_volume id target)
unfolding node_unstage_volume
Frame-node_unstage_volume id target = search frame_remote
