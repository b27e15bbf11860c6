-- ===== src/Controller.antt =====
-- pkg/flexblock/controllerserver.go: the capabilities of the controller, and the calls that it does
-- not implement. The others are in the modules below.
pub mod Create
pub mod Checks
pub mod Made
pub mod Reuse
pub mod Retry
pub mod Volumes
pub mod Expand
pub mod Snapshots
pub mod TakeSnapshot
pub mod Deleted
pub mod Steps
pub mod Race
pub mod Pages
pub mod Listing
pub mod Walk
pub mod Bounds
pub mod Frame
use csi_driver_flexblock.Prelude.{◌||◌, ℕ, ◌==◌, String, Bool, true, false, List, [], ◌∷◌}
use csi_driver_flexblock.Go.{pure, invalid_argument, unimplemented, Go, raise, require, status}

pub data RpcType : Type 0 where
  unknown create_delete_volume get_capacity create_delete_snapshot : RpcType
  list_snapshots clone_volume expand_volume : RpcType

abbrev pub rpc_number : RpcType → ℕ
rpc_number unknown = 0
rpc_number create_delete_volume = 1
rpc_number get_capacity = 4
rpc_number create_delete_snapshot = 5
rpc_number list_snapshots = 6
rpc_number clone_volume = 7
rpc_number expand_volume = 9

pub record ControllerServer : Type 0 where
  pub caps : List RpcType
  pub node_id : String

-- NewControllerServer, with getControllerServiceCapabilities
unfoldable pub new_controller_server : Bool → String → ControllerServer
new_controller_server true node_id = record { caps = []; node_id = node_id }
new_controller_server false node_id = record {
  caps =
      create_delete_volume ∷ get_capacity ∷ create_delete_snapshot ∷ list_snapshots ∷ clone_volume
      ∷ expand_volume ∷ [];
  node_id = node_id;
}

unfoldable pub has_rpc : RpcType → List RpcType → Bool
has_rpc c [] = false
has_rpc c (d ∷ ds) = (rpc_number c == rpc_number d) || has_rpc c ds

-- validateControllerServiceRequest
unfoldable pub validate_request : ControllerServer → RpcType → Go (Unit {0})
validate_request cs c = require ((rpc_number c == 0) || has_rpc c cs.caps) (status invalid_argument)

-- ControllerPublishVolume, ControllerUnpublishVolume, GetCapacity, ListVolumes, ControllerGetVolume
unfoldable pub not_implemented {ℓ} : {A : Type ℓ} → Go A
not_implemented = raise (status unimplemented)

-- ControllerGetCapabilities
unfoldable pub controller_get_capabilities : ControllerServer → Go (List RpcType)
controller_get_capabilities cs = pure cs.caps
