-- ===== src/Controller/Volumes.antt =====
-- pkg/flexblock/controllerserver.go: DeleteVolume, ValidateVolumeCapabilities, ControllerExpandVolume.
use csi_driver_flexblock.Store.{get_volume_by_id}
use csi_driver_flexblock.Driver.Delete.{delete_flexblock_volume}
use csi_driver_flexblock.Driver.Update.{update_flexblock_volume}
use csi_driver_flexblock.Go.{
  out_of_range, not_found, ◌>>=◌, raise, pure, maybe, invalid_argument, internal, status, wrap,
  require, ◌>>◌, Go,
}
use csi_driver_flexblock.Controller.{create_delete_volume, validate_request, ControllerServer}
use csi_driver_flexblock.Volume.{max_storage_capacity, Volume}
use csi_driver_flexblock.Prelude.Int.{ltb_ℤ, ℤ}
use csi_driver_flexblock.Csi.{wants_mount, ExpandResponse, wants_block, Access}
use csi_driver_flexblock.Env.{Env}
use csi_driver_flexblock.Prelude.{
  ◌==◌, length, ◌=ₛ◌, not, ◌&&◌, if◌then◌else◌, ◌||◌, String, Bool, true, Option, List, [], ◌∷◌,
}

-- the loop over the capabilities
unfoldable pub all_defined : List Access → Bool
all_defined [] = true
all_defined (a ∷ as') = (wants_block a || wants_mount a) && all_defined as'

-- ValidateVolumeCapabilities: what it confirms is what was asked
unfoldable pub validate_volume_capabilities : String → List Access → Go (Unit {0})
validate_volume_capabilities volume_id caps = do
  require (not (volume_id =ₛ "")) (status invalid_argument)
  require (not (length caps == 0)) (status invalid_argument)
  vol ← wrap not_found (get_volume_by_id volume_id)
  require (all_defined caps) (status invalid_argument)

module _ (env : Env) where
  -- DeleteVolume
  unfoldable pub delete_volume : ControllerServer → String → Go (Unit {0})
  delete_volume cs volume_id = do
    require (not (volume_id =ₛ "")) (status invalid_argument)
    validate_request cs create_delete_volume
    wrap internal (delete_flexblock_volume env volume_id)

  -- A volume is only made larger.
  unfoldable pub grow : String → Volume → ℤ → Go ExpandResponse
  grow vol_id vol capacity =
      if ltb_ℤ vol.vol_size capacity
      then (do
        wrap internal (update_flexblock_volume env vol_id (record vol { vol_size = capacity }))
        pure (record { capacity_bytes = capacity; node_expansion_required = true }))
      else pure (record { capacity_bytes = vol.vol_size; node_expansion_required = true })

  -- ControllerExpandVolume
  unfoldable pub controller_expand_volume : String → Option ℤ → Go ExpandResponse
  controller_expand_volume vol_id capacity_range = do
    require (not (vol_id =ₛ "")) (status invalid_argument)
    maybe capacity_range (raise (status invalid_argument)) λ capacity. do
      require (ltb_ℤ capacity max_storage_capacity) (status out_of_range)
      vol ← wrap not_found (get_volume_by_id vol_id)
      grow vol_id vol capacity
