-- ===== src/Node.antt =====
-- pkg/flexblock/nodeserver.go: the node's state, and the calls that only check their request.
pub mod Publish
pub mod Published
pub mod Unpublish
pub mod Expand
pub mod Frame
use csi_driver_flexblock.Csi.{Access}
use csi_driver_flexblock.Prelude.Int.{ℤ}
use csi_driver_flexblock.Go.{unimplemented, raise, invalid_argument, status, require, ◌>>◌, Go}
use csi_driver_flexblock.Prelude.{
  is_some, ◌=ₛ◌, not, String, Bool, Option, none, some, List, [], ◌∷◌,
}

pub record NodeServer : Type 0 where
  pub node_id : String
  pub ephemeral : Bool
  pub max_volumes_per_node : ℤ

-- NewNodeServer
unfoldable pub new_node_server : String → Bool → ℤ → NodeServer
new_node_server node_id ephemeral max_volumes_per_node = record {
  node_id = node_id;
  ephemeral = ephemeral;
  max_volumes_per_node = max_volumes_per_node;
}

-- NodeStageVolume
unfoldable pub node_stage_volume : String → String → Option Access → Go (Unit {0})
node_stage_volume volume_id staging_target_path capability = do
  require (not (volume_id =ₛ "")) (status invalid_argument)
  require (not (staging_target_path =ₛ "")) (status invalid_argument)
  require (is_some capability) (status invalid_argument)

-- NodeUnstageVolume
unfoldable pub node_unstage_volume : String → String → Go (Unit {0})
node_unstage_volume volume_id staging_target_path = do
  require (not (volume_id =ₛ "")) (status invalid_argument)
  require (not (staging_target_path =ₛ "")) (status invalid_argument)

pub record NodeInfo : Type 0 where
  pub node_id : String
  pub max_volumes_per_node : ℤ
  pub topology : List (String × String)

-- NodeGetInfo
unfoldable pub node_get_info : NodeServer → NodeInfo
node_get_info ns = record {
  node_id = ns.node_id;
  max_volumes_per_node = ns.max_volumes_per_node;
  topology = ("topology.flexblock.csi/node", ns.node_id) ∷ [];
}

pub data NodeRpc : Type 0 where
  stage_unstage_volume expand_volume : NodeRpc

-- NodeGetCapabilities
unfoldable pub node_get_capabilities : NodeServer → List NodeRpc
node_get_capabilities ns = stage_unstage_volume ∷ expand_volume ∷ []

-- NodeGetVolumeStats
unfoldable pub node_get_volume_stats : Go (Unit {0})
node_get_volume_stats = raise (status unimplemented)
