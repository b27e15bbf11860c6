-- ===== src/Node/Unpublish.antt =====
-- pkg/flexblock/nodeserver.go: NodeUnpublishVolume.
use csi_driver_flexblock.Store.{get_volume_by_id}
use csi_driver_flexblock.Driver.Delete.{delete_flexblock_volume}
use csi_driver_flexblock.Node.Publish.{real_error, no_error}
use csi_driver_flexblock.Sys.{remove_all, unmount, is_not_mount_point}
use csi_driver_flexblock.Volume.{Volume}
use csi_driver_flexblock.Go.{
  not_found, wrap, internal, invalid_argument, status, raise, pure, says_not_exist, require, catch,
  ◌>>=◌, ◌>>◌, Go,
}
use csi_driver_flexblock.Env.{Env}
use csi_driver_flexblock.Prelude.{◌||◌, is_some, ◌=ₛ◌, not, if◌then◌else◌, String}

module _ (env : Env) where
  -- only a mount point is unmounted
  unfoldable pub unmount_target : String → Go (Unit {0})
  unmount_target target = do
    state ← is_not_mount_point env target
    no_error (real_error state.1)
    if is_some state.1 || state.0 then pure tt else (do done ← unmount env target; no_error done)

  unfoldable pub delete_ephemeral : Volume → String → Go (Unit {0})
  delete_ephemeral vol volume_id =
      if vol.ephemeral
      then catch (λ e. if says_not_exist e then pure tt else raise (status internal))
          (delete_flexblock_volume env volume_id)
      else pure tt

  -- NodeUnpublishVolume
  unfoldable pub node_unpublish_volume : String → String → Go (Unit {0})
  node_unpublish_volume volume_id target = do
    require (not (volume_id =ₛ "")) (status invalid_argument)
    require (not (target =ₛ "")) (status invalid_argument)
    vol ← wrap not_found (get_volume_by_id volume_id)
    unmount_target target
    removed ← remove_all env target
    no_error removed
    delete_ephemeral vol volume_id
