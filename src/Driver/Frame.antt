-- ===== src/Driver/Frame.antt =====
-- All that creating, resizing and deleting a volume do before they write the map leaves the maps
-- alone.
use csi_driver_flexblock.Remote.Frame.{frame_remote}
use csi_driver_flexblock.Remote.Cluster.{Ids}
use csi_driver_flexblock.Volume.{block_access, mount_access, other_access, AccessType}
use csi_driver_flexblock.Prelude.Int.{ℤ}
use csi_driver_flexblock.Go.Frame.{Frame-bind, Frame-pure, Frame}
use csi_driver_flexblock.Driver.Create.{
  prepare, create_remote, ensure_target, create_local, login_all, format, make_target,
}
use csi_driver_flexblock.Driver.Delete.{
  unmount_volume, forget_all, delete_remote, tear_down, remove_mappers, remove_holder,
  delete_target, delete_local,
}
use csi_driver_flexblock.Driver.Update.{
  resize_file_system, resize_local, resize, reload_multipath, resize_remote,
}
use csi_driver_flexblock.Driver.Disk.{find_device, storage_ips, checked}
use csi_driver_flexblock.Env.{Env}
use csi_driver_flexblock.Prelude.{ℕ, List, String, [], ◌∷◌}

pub Frame-checked : (env : Env) (args : List String) → Frame (checked env args)
unfolding checked
Frame-checked env args = search frame_remote

Frame-storage_ips : Frame storage_ips
unfolding storage_ips
Frame-storage_ips = search frame_remote

module _ (env : Env) where
  Frame-find_device : (iqn old : String) (ips : List String) → Frame (find_device env iqn old ips)
  unfolding find_device
  Frame-find_device iqn old ips = search frame_remote depth 8

  Frame-make_target : (vol_id tid : String) → Frame (make_target env vol_id tid)
  unfolding make_target
  Frame-make_target vol_id tid = search (frame_remote, Frame-checked) depth 9

  Frame-create_local : (vol_id : String) (capacity : ℤ) → Frame (create_local env vol_id capacity)
  unfolding create_local
  Frame-create_local vol_id capacity = search (frame_remote, Frame-make_target) depth 10

  Frame-login_all : (iqn : String) (ips : List String) → Frame (login_all env iqn ips)
  unfolding login_all
  Frame-login_all iqn [] = search frame_remote
  Frame-login_all iqn (ip ∷ ips) =
      Frame-bind _ _ (Frame-checked env _)
        λ _. Frame-bind _ _ (Frame-checked env _) λ _. Frame-login_all iqn ips

  Frame-ensure_target :
      (fuel : ℕ) (ids : Ids) (vol_id : String) (vol : ℤ × ℤ)
      → Frame (ensure_target env fuel ids vol_id vol)
  unfolding ensure_target
  Frame-ensure_target fuel ids vol_id vol = search frame_remote depth 8

  Frame-create_remote :
      (fuel : ℕ) (ids : Ids) (vol_id : String) (capacity : ℤ)
      → Frame (create_remote env fuel ids vol_id capacity)
  unfolding create_remote
  Frame-create_remote fuel ids vol_id capacity =
      search
        (frame_remote, Frame-ensure_target, Frame-storage_ips, Frame-login_all, Frame-find_device)
        depth 10

  Frame-format : (access : AccessType) (disk path : String) → Frame (format env access disk path)
  unfolding format
  Frame-format mount_access disk path = search (frame_remote, Frame-checked) depth 10
  Frame-format block_access disk path = search frame_remote
  Frame-format (other_access n) disk path = search frame_remote

  pub Frame-prepare :
      (fuel : ℕ) (vol_id : String) (capacity : ℤ) (access : AccessType)
      → Frame (prepare env fuel vol_id capacity access)
  unfolding prepare
  Frame-prepare fuel vol_id capacity access =
      search (frame_remote, Frame-create_local, Frame-create_remote, Frame-format) depth 8

  Frame-resize_local : (vol_id : String) (capacity : ℤ) → Frame (resize_local env vol_id capacity)
  unfolding resize_local
  Frame-resize_local vol_id capacity = search (frame_remote, Frame-checked) depth 8

  Frame-reload_multipath : (device : String × List String) → Frame (reload_multipath env device)
  unfolding reload_multipath
  Frame-reload_multipath (path, []) = search frame_remote
  Frame-reload_multipath (path, h ∷ hs) = search frame_remote

  Frame-resize_remote :
      (ids : Ids) (vol_id : String) (capacity : ℤ) → Frame (resize_remote env ids vol_id capacity)
  unfolding resize_remote
  Frame-resize_remote ids vol_id capacity =
      search
        (frame_remote, Frame-checked, Frame-storage_ips, Frame-find_device, Frame-reload_multipath)
        depth 10

  Frame-resize_file_system :
      (access : AccessType) (disk : String) → Frame (resize_file_system env access disk)
  unfolding resize_file_system
  Frame-resize_file_system mount_access disk = Frame-checked env _
  Frame-resize_file_system block_access disk = Frame-pure tt
  Frame-resize_file_system (other_access n) disk = Frame-pure tt

  pub Frame-resize :
      (vol_id : String) (access : AccessType) (capacity : ℤ)
      → Frame (resize env vol_id access capacity)
  unfolding resize
  Frame-resize vol_id access capacity =
      search (frame_remote, Frame-resize_local, Frame-resize_remote, Frame-resize_file_system) depth
        8

  Frame-delete_target : (meid : String) → Frame (delete_target env meid)
  unfolding delete_target
  Frame-delete_target meid = search (frame_remote, Frame-checked) depth 8

  Frame-delete_local : (vol_id : String) → Frame (delete_local env vol_id)
  unfolding delete_local
  Frame-delete_local vol_id = search (frame_remote, Frame-checked, Frame-delete_target) depth 10

  Frame-remove_mappers :
      (dm_name : String) (files : List String) → Frame (remove_mappers env dm_name files)
  unfolding remove_mappers
  Frame-remove_mappers dm_name [] = search frame_remote
  Frame-remove_mappers dm_name (f ∷ fs) =
      Frame-bind _ _ (search frame_remote)
        λ link. Frame-bind _ _ (search frame_remote depth 8) λ _. Frame-remove_mappers dm_name fs

  Frame-remove_holder : (holders : List String) → Frame (remove_holder env holders)
  unfolding remove_holder
  Frame-remove_holder [] = search frame_remote
  Frame-remove_holder (h ∷ hs) = search (frame_remote, Frame-remove_mappers)

  Frame-forget_all : (iqn : String) (ips : List String) → Frame (forget_all env iqn ips)
  unfolding forget_all
  Frame-forget_all iqn [] = search frame_remote
  Frame-forget_all iqn (ip ∷ ips) =
      Frame-bind _ _ (search frame_remote) λ _. Frame-forget_all iqn ips

  Frame-delete_remote : (ids : Ids) (vol_id : String) → Frame (delete_remote env ids vol_id)
  unfolding delete_remote
  Frame-delete_remote ids vol_id =
      search
        (frame_remote, Frame-storage_ips, Frame-find_device, Frame-remove_holder, Frame-forget_all)
        depth 10

  Frame-unmount_volume :
      (access : AccessType) (path : String) → Frame (unmount_volume env access path)
  unfolding unmount_volume
  Frame-unmount_volume mount_access path = Frame-checked env _
  Frame-unmount_volume block_access path = Frame-pure tt
  Frame-unmount_volume (other_access n) path = Frame-pure tt

  pub Frame-tear_down :
      (vol_id : String) (access : AccessType) → Frame (tear_down env vol_id access)
  unfolding tear_down
  Frame-tear_down vol_id access =
      search (frame_remote, Frame-unmount_volume, Frame-delete_local, Frame-delete_remote) depth 9
