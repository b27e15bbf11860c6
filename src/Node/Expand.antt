-- ===== src/Node/Expand.antt =====
-- pkg/flexblock/nodeserver.go: NodeExpandVolume.
use csi_driver_flexblock.Store.{get_volume_by_id}
use csi_driver_flexblock.Sys.{stat}
use csi_driver_flexblock.Driver.Update.{update_flexblock_volume}
use csi_driver_flexblock.Prelude.Int.{ltb_ℤ, ℤ}
use csi_driver_flexblock.Go.{
  raise, maybe, not_found, pure, ◌>>=◌, invalid_argument, out_of_range, status, internal, wrap,
  require, ◌>>◌, Go,
}
use csi_driver_flexblock.Csi.{NodeExpandRequest}
use csi_driver_flexblock.Volume.{max_storage_capacity, is_block, is_mount, AccessType, Volume}
use csi_driver_flexblock.Env.{regular, device, directory, FileMode, Env}
use csi_driver_flexblock.Prelude.{◌=ₛ◌, not, false, if◌then◌else◌, String, Bool}

-- the switch on the mode of the volume's path
unfoldable pub mode_fits : FileMode → AccessType → Bool
mode_fits directory access = is_mount access
mode_fits device access = is_block access
mode_fits regular access = false

module _ (env : Env) where
  unfoldable pub node_grow : String → Volume → ℤ → Go (Unit {0})
  node_grow vol_id vol capacity =
      if ltb_ℤ vol.vol_size capacity
      then wrap internal (update_flexblock_volume env vol_id (record vol { vol_size = capacity }))
      else pure tt

  unfoldable pub expand_checked : NodeExpandRequest → Volume → ℤ → Go (Unit {0})
  expand_checked req vol capacity = do
    require (ltb_ℤ capacity max_storage_capacity) (status out_of_range)
    info ← stat env req.volume_path
    maybe info (raise (status invalid_argument)) λ mode. do
      require (mode_fits mode vol.vol_access_type) (status invalid_argument)
      node_grow req.volume_id vol capacity

  -- NodeExpandVolume
  unfoldable pub node_expand_volume : NodeExpandRequest → Go (Unit {0})
  node_expand_volume req = do
    require (not (req.volume_id =ₛ "")) (status invalid_argument)
    vol ← wrap not_found (get_volume_by_id req.volume_id)
    require (not (req.volume_path =ₛ "")) (status invalid_argument)
    maybe req.capacity_range (raise (status invalid_argument)) (expand_checked req vol)
