-- ===== src/Rpc.antt =====
-- The calls that the gRPC server hands to the driver, one after the other, and the state that they
-- leave.
pub mod Invariant
pub mod Induction
pub mod WellFormed
pub mod Saved
pub mod Restart
use csi_driver_flexblock.Server.{log_grpc}
use csi_driver_flexblock.Identity.{get_plugin_capabilities, get_plugin_info, probe, Servers}
use csi_driver_flexblock.Node.Expand.{node_expand_volume}
use csi_driver_flexblock.Node.Unpublish.{node_unpublish_volume}
use csi_driver_flexblock.Node.Publish.{node_publish_volume}
use csi_driver_flexblock.Controller.TakeSnapshot.{create_snapshot}
use csi_driver_flexblock.Controller.Snapshots.{list_snapshots_rpc, delete_snapshot}
use csi_driver_flexblock.Controller.Volumes.{
  controller_expand_volume, validate_volume_capabilities, delete_volume,
}
use csi_driver_flexblock.Controller.Create.{create_volume}
use csi_driver_flexblock.Node.{
  node_get_volume_stats, node_get_capabilities, node_get_info, node_unstage_volume,
  node_stage_volume, NodeServer,
}
use csi_driver_flexblock.Prelude.Int.{ℤ}
use csi_driver_flexblock.Controller.{not_implemented, controller_get_capabilities, ControllerServer}
use csi_driver_flexblock.Env.{Globals, Env}
use csi_driver_flexblock.Csi.{
  NodeExpandRequest, NodePublishRequest, ListSnapshotsRequest, Access, CreateVolumeRequest,
}
use csi_driver_flexblock.Go.{Result, pending, panic, err, ok, pure, ◌>>=◌, Go}
use csi_driver_flexblock.Prelude.{String, ℕ, List, [], ◌∷◌, Option, refl}

pub data Rpc : Type 0 where
  create_volume_rpc : CreateVolumeRequest → Rpc
  delete_volume_rpc : String → Rpc
  validate_rpc : String → List Access → Rpc
  expand_rpc : String → Option ℤ → Rpc
  create_snapshot_rpc : String → String → Rpc
  delete_snapshot_rpc : String → Rpc
  list_rpc : ListSnapshotsRequest → Rpc
  publish_rpc : NodePublishRequest → Rpc
  unpublish_rpc : String → String → Rpc
  stage_rpc : String → String → Option Access → Rpc
  unstage_rpc : String → String → Rpc
  node_expand_rpc : NodeExpandRequest → Rpc
  probe_rpc plugin_info_rpc plugin_capabilities_rpc : Rpc
  controller_capabilities_rpc controller_publish_rpc controller_unpublish_rpc : Rpc
  get_capacity_rpc list_volumes_rpc get_volume_rpc : Rpc
  node_info_rpc node_capabilities_rpc node_stats_rpc : Rpc

-- the FullMethod that gRPC gives to the interceptor
abbrev pub method_of : Rpc → String
method_of (create_volume_rpc req) = "/csi.v1.Controller/CreateVolume"
method_of (delete_volume_rpc id) = "/csi.v1.Controller/DeleteVolume"
method_of (validate_rpc id caps) = "/csi.v1.Controller/ValidateVolumeCapabilities"
method_of (expand_rpc id range) = "/csi.v1.Controller/ControllerExpandVolume"
method_of (create_snapshot_rpc name id) = "/csi.v1.Controller/CreateSnapshot"
method_of (delete_snapshot_rpc id) = "/csi.v1.Controller/DeleteSnapshot"
method_of (list_rpc req) = "/csi.v1.Controller/ListSnapshots"
method_of (publish_rpc req) = "/csi.v1.Node/NodePublishVolume"
method_of (unpublish_rpc id target) = "/csi.v1.Node/NodeUnpublishVolume"
method_of (stage_rpc id target access) = "/csi.v1.Node/NodeStageVolume"
method_of (unstage_rpc id target) = "/csi.v1.Node/NodeUnstageVolume"
method_of (node_expand_rpc req) = "/csi.v1.Node/NodeExpandVolume"
method_of probe_rpc = "/csi.v1.Identity/Probe"
method_of plugin_info_rpc = "/csi.v1.Identity/GetPluginInfo"
method_of plugin_capabilities_rpc = "/csi.v1.Identity/GetPluginCapabilities"
method_of controller_capabilities_rpc = "/csi.v1.Controller/ControllerGetCapabilities"
method_of controller_publish_rpc = "/csi.v1.Controller/ControllerPublishVolume"
method_of controller_unpublish_rpc = "/csi.v1.Controller/ControllerUnpublishVolume"
method_of get_capacity_rpc = "/csi.v1.Controller/GetCapacity"
method_of list_volumes_rpc = "/csi.v1.Controller/ListVolumes"
method_of get_volume_rpc = "/csi.v1.Controller/ControllerGetVolume"
method_of node_info_rpc = "/csi.v1.Node/NodeGetInfo"
method_of node_capabilities_rpc = "/csi.v1.Node/NodeGetCapabilities"
method_of node_stats_rpc = "/csi.v1.Node/NodeGetVolumeStats"

abbrev pub done {ℓ} : {A : Type ℓ} → Go A → Go (Unit {0})
done m = m >>= λ _. pure tt

-- A panic ends the process, and a call that has not returned holds up those behind it.
abbrev pub next : Result (Unit {0}) → Globals → Globals → Globals
next (ok u) s rest = rest
next (err e) s rest = rest
next panic s rest = s
next pending s rest = s

module _ (env : Env) (fuel : ℕ) (srv : Servers) where
  open srv use {ids, cs, ns}

  -- the method of the service
  unfoldable pub handler : Rpc → Go (Unit {0})
  handler (create_volume_rpc req) = done (create_volume env fuel cs req)
  handler (delete_volume_rpc id) = delete_volume env cs id
  handler (validate_rpc id caps) = validate_volume_capabilities id caps
  handler (expand_rpc id range) = done (controller_expand_volume env id range)
  handler (create_snapshot_rpc name id) = done (create_snapshot env cs name id)
  handler (delete_snapshot_rpc id) = delete_snapshot env cs id
  handler (list_rpc req) = done (list_snapshots_rpc env cs req)
  handler (publish_rpc req) = node_publish_volume env fuel ns req
  handler (unpublish_rpc id target) = node_unpublish_volume env id target
  handler (stage_rpc id target access) = node_stage_volume id target access
  handler (unstage_rpc id target) = node_unstage_volume id target
  handler (node_expand_rpc req) = node_expand_volume env req
  handler probe_rpc = probe
  handler plugin_info_rpc = done (get_plugin_info ids)
  handler plugin_capabilities_rpc = done get_plugin_capabilities
  handler controller_capabilities_rpc = done (controller_get_capabilities cs)
  handler controller_publish_rpc = not_implemented
  handler controller_unpublish_rpc = not_implemented
  handler get_capacity_rpc = not_implemented
  handler list_volumes_rpc = not_implemented
  handler get_volume_rpc = not_implemented
  handler node_info_rpc = done (pure (node_get_info ns))
  handler node_capabilities_rpc = done (pure (node_get_capabilities ns))
  handler node_stats_rpc = node_get_volume_stats

  -- a call, behind the interceptor
  unfoldable pub handle : Rpc → Go (Unit {0})
  unfolding handler
  handle r = log_grpc (method_of r) (handler r)

  unfoldable pub serve : List Rpc → Globals → Globals
  serve [] s = s
  serve (r ∷ rs) s = let rest = serve rs (handle r s).1 in next (handle r s).0 (handle r s).1 rest
