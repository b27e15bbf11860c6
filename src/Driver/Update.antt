-- ===== src/Driver/Update.antt =====
-- pkg/flexblock/flexblock.go: updateFlexblockVolume.
use csi_driver_flexblock.Driver.Create.{held_path, has_no_pool}
use csi_driver_flexblock.Remote.Volumes.{update_vol}
use csi_driver_flexblock.Prelude.Text.{◌<>◌}
use csi_driver_flexblock.Sys.{run}
use csi_driver_flexblock.Store.{save_existing_vol, put_volume}
use csi_driver_flexblock.Driver.Disk.{
  find_device, storage_ips, remote_iqn, local_disk, local_iqn, size_in_mib, checked,
}
use csi_driver_flexblock.Remote.Cluster.{get_cluster_id, Ids}
use csi_driver_flexblock.Volume.{mount_access, lookup, AccessType, Volume}
use csi_driver_flexblock.Prelude.Int.{pos, eq_ℤ, ℤ}
use csi_driver_flexblock.Go.{maybe, gets, status, require, internal, wrap, ◌>>=◌, pure, ◌>>◌, Go}
use csi_driver_flexblock.Env.{Env}
use csi_driver_flexblock.Prelude.{not, if◌then◌else◌, String, List, [], ◌∷◌}

module _ (env : Env) where
  -- storclusterid == 0: the device of the resized volume
  unfoldable pub resize_local : String → ℤ → Go String
  resize_local vol_id capacity = do
    checked env ("xioadm" ∷ "vdi" ∷ "resize" ∷ vol_id ∷ size_in_mib capacity ∷ [])
    checked env ("iscsiadm" ∷ "-m" ∷ "node" ∷ "-T" ∷ local_iqn vol_id ∷ "-R" ∷ [])
    pure (local_disk vol_id)

  -- `multipath -r`, whose error is not looked at
  unfoldable pub reload_multipath : String × List String → Go (Unit {0})
  reload_multipath (path, []) = pure tt
  reload_multipath (path, h ∷ hs) = do
    out ← run env ("multipath" ∷ "-r" ∷ ("/dev/" <> h) ∷ [])
    pure tt

  unfoldable pub resize_remote : Ids → String → ℤ → Go String
  resize_remote ids vol_id capacity = do
    vol ← wrap internal (update_vol env ids.0 ids.1 vol_id capacity)
    checked env ("iscsiadm" ∷ "-m" ∷ "node" ∷ "-T" ∷ remote_iqn vol_id ∷ "-R" ∷ [])
    ips ← storage_ips
    device ← find_device env (remote_iqn vol_id) "/dev/" ips
    require (not (has_no_pool device.1 ips)) (status internal)
    reload_multipath device
    pure (held_path device)

  unfoldable pub resize_file_system : AccessType → String → Go (Unit {0})
  resize_file_system mount_access disk = checked env ("resize2fs" ∷ disk ∷ [])
  resize_file_system _ disk = pure tt

  -- all that stands before the map is written
  unfoldable pub resize : String → AccessType → ℤ → Go (Unit {0})
  resize vol_id access capacity = do
    ids ← wrap internal (get_cluster_id env)
    disk ←
        (if eq_ℤ ids.0 (pos 0)
          then resize_local vol_id capacity
          else resize_remote ids vol_id capacity)
    resize_file_system access disk

  unfoldable pub resize_and_store : String → Volume → AccessType → Go (Unit {0})
  resize_and_store vol_id volume access = do
    resize vol_id access volume.vol_size
    put_volume vol_id volume
    save_existing_vol env

  -- updateFlexblockVolume: nothing is done for an id that is not in the map
  unfoldable pub update_flexblock_volume : String → Volume → Go (Unit {0})
  update_flexblock_volume vol_id volume = do
    found ← gets (λ s. lookup vol_id s.volumes)
    maybe found (pure tt) λ vol. resize_and_store vol_id volume vol.vol_access_type
