-- ===== src/Identity.antt =====
-- pkg/flexblock/identityserver.go, and NewFlexBlockDriver and Run of pkg/flexblock/flexblock.go.
use csi_driver_flexblock.Paths.{data_root}
use csi_driver_flexblock.Sys.{mkdir_all}
use csi_driver_flexblock.Store.{discover_existing_snapshots, discover_existing_vol}
use csi_driver_flexblock.Controller.{new_controller_server, ControllerServer}
use csi_driver_flexblock.Go.{
  raise, maybe, unavailable, ◌>>=◌, status, plain, pure, require, ◌>>◌, Go,
}
use csi_driver_flexblock.Node.{new_node_server, NodeServer}
use csi_driver_flexblock.Env.{Env}
use csi_driver_flexblock.Prelude.Int.{ℤ}
use csi_driver_flexblock.Prelude.{[], ◌∷◌, List, if◌then◌else◌, ◌=ₛ◌, not, String, Bool}

pub record IdentityServer : Type 0 where
  pub name : String
  pub version : String

-- NewIdentityServer
unfoldable pub new_identity_server : String → String → IdentityServer
new_identity_server name version = record { name = name; version = version }

pub record PluginInfo : Type 0 where
  pub name : String
  pub vendor_version : String

-- GetPluginInfo
unfoldable pub get_plugin_info : IdentityServer → Go PluginInfo
get_plugin_info ids = do
  require (not (ids.name =ₛ "")) (status unavailable)
  require (not (ids.version =ₛ "")) (status unavailable)
  pure (record { name = ids.name; vendor_version = ids.version })

-- Probe
unfoldable pub probe : Go (Unit {0})
probe = pure tt

pub data PluginService : Type 0 where
  controller_service volume_accessibility_constraints : PluginService

-- GetPluginCapabilities
unfoldable pub get_plugin_capabilities : Go (List PluginService)
get_plugin_capabilities = pure (controller_service ∷ volume_accessibility_constraints ∷ [])

pub record FlexBlock : Type 0 where
  pub name : String
  pub node_id : String
  pub version : String
  pub endpoint : String
  pub ephemeral : Bool
  pub max_volumes_per_node : ℤ

-- NewFlexBlockDriver; the vendor version is "dev" unless a version is given
unfoldable pub new_flexblock_driver :
    Env → String → String → String → Bool → ℤ → String → Go FlexBlock
new_flexblock_driver env driver_name node_id endpoint ephemeral max_volumes_per_node version = do
  require (not (driver_name =ₛ "")) plain
  require (not (node_id =ₛ "")) plain
  require (not (endpoint =ₛ "")) plain
  made ← mkdir_all env data_root
  (maybe made (pure tt) λ e. raise plain)
  pure (record {
    name = driver_name;
    node_id = node_id;
    version = if version =ₛ "" then "dev" else version;
    endpoint = endpoint;
    ephemeral = ephemeral;
    max_volumes_per_node = max_volumes_per_node;
  })

pub record Servers : Type 0 where
  pub ids : IdentityServer
  pub ns : NodeServer
  pub cs : ControllerServer

-- Run, up to the start of the gRPC server
unfoldable pub run_driver : Env → FlexBlock → Go Servers
run_driver env hp = do
  discover_existing_vol env
  discover_existing_snapshots env
  pure (record {
    ids = new_identity_server hp.name hp.version;
    ns = new_node_server hp.node_id hp.ephemeral hp.max_volumes_per_node;
    cs = new_controller_server hp.ephemeral hp.node_id;
  })
