-- ===== src/Controller/Create.antt =====
-- pkg/flexblock/controllerserver.go: CreateVolume.
use csi_driver_flexblock.Store.{get_volume_by_name}
use csi_driver_flexblock.Driver.Create.{create_flexblock_volume}
use csi_driver_flexblock.Driver.Delete.{delete_flexblock_volume}
use csi_driver_flexblock.Conf.{node_list}
use csi_driver_flexblock.Driver.Load.{load_from_volume, load_from_snapshot}
use csi_driver_flexblock.Prelude.Text.{skip_bytes, split, byte_size}
use csi_driver_flexblock.Paths.{get_volume_path}
use csi_driver_flexblock.Sys.{read_file}
use csi_driver_flexblock.Go.{
  optional, out_of_range, internal, raise, invalid_argument, already_exists, status, wrap, maybe,
  crash, require, attempt, ◌>>◌, ◌>>=◌, pure, Go,
}
use csi_driver_flexblock.Controller.{create_delete_volume, validate_request, ControllerServer}
use csi_driver_flexblock.Prelude.Int.{ltb_ℤ, ℤ}
use csi_driver_flexblock.Env.{Env}
use csi_driver_flexblock.Volume.{
  max_storage_capacity, mount_access, block_access, AccessType, Volume,
}
use csi_driver_flexblock.Csi.{
  improper_source, required_bytes, volume_source, snapshot_source, CsiVolume, ContentSource,
  wants_block, wants_mount, Access, CreateVolumeRequest,
}
use csi_driver_flexblock.Prelude.{
  ◌&&◌, not, ◌=ₛ◌, ltb, if◌then◌else◌, ◌||◌, ℕ, String, Bool, false, Option, none, some, List, [],
  ◌∷◌,
}

-- the loop over the capabilities: whether one asks for a block volume, or a mount
unfoldable pub any_block : List Access → Bool
any_block [] = false
any_block (a ∷ as') = wants_block a || any_block as'

unfoldable pub any_mount : List Access → Bool
any_mount [] = false
any_mount (a ∷ as') = wants_mount a || any_mount as'

unfoldable pub requested_access : List Access → AccessType
requested_access caps = if any_block caps then block_access else mount_access

-- the test of an existing volume's content source
unfoldable pub check_source : Volume → Option ContentSource → Go (Unit {0})
check_source vol none = pure tt
check_source vol (some (snapshot_source none)) = pure tt
check_source vol (some (snapshot_source (some id))) =
    require ((vol.parent_snap_id =ₛ "") || (vol.parent_snap_id =ₛ id)) (status already_exists)
check_source vol (some (volume_source none)) = pure tt
check_source vol (some (volume_source (some id))) =
    require (vol.parent_vol_id =ₛ id) (status already_exists)
check_source vol (some improper_source) = raise (status invalid_argument)

abbrev pub created : CreateVolumeRequest → String → ℤ → List String → CsiVolume
created req id size nodes = record {
  volume_id = id;
  capacity_bytes = size;
  volume_context = req.parameters;
  content_source = req.volume_content_source;
  accessible_topology = nodes;
}

-- A volume of that name is there already.
unfoldable pub reuse_volume : CreateVolumeRequest → List String → Volume → Go CsiVolume
reuse_volume req nodes vol = do
  require (not (ltb_ℤ vol.vol_size (required_bytes req.capacity_range))) (status already_exists)
  check_source vol req.volume_content_source
  pure (created req vol.vol_id vol.vol_size nodes)

module _ (env : Env) where
  -- the nodes of the node list file, and the controller's own where it cannot be opened
  unfoldable pub topologies : ControllerServer → Go (List String)
  topologies cs = do
    text ← read_file env "/etc/neucli/flexblock_plugin_node_list"
    pure (elim text [ none ↦ cs.node_id ∷ [] | some t ↦ node_list (split 10 t) ])

  -- The switch on the content source. ParentSnapID and ParentVolID are set in the copy that
  -- createFlexblockVolume returned, which is not the volume in the map and is not used again.
  unfoldable pub populate : ℤ → String → AccessType → Option ContentSource → Go (Unit {0})
  populate capacity path access none = pure tt
  populate capacity path access (some (snapshot_source none)) = pure tt
  populate capacity path access (some (snapshot_source (some id))) =
      load_from_snapshot env capacity id path access
  populate capacity path access (some (volume_source none)) = pure tt
  populate capacity path access (some (volume_source (some id))) =
      load_from_volume env capacity id path access
  populate capacity path access (some improper_source) = raise (status invalid_argument)

  -- A volume that cannot be populated is deleted again, and the error of that is only logged.
  unfoldable pub populate_or_delete : String → ℤ → AccessType → Option ContentSource → Go (Unit {0})
  populate_or_delete vol_id capacity access source = do
    error ← attempt (populate capacity (get_volume_path vol_id) access source)
    maybe error (pure tt) λ e. do ignored ← attempt (delete_flexblock_volume env vol_id); raise e

  -- pvcName[4:len(pvcName)] of a shorter name is a slice out of range.
  unfoldable pub fresh_volume : ℕ → CreateVolumeRequest → AccessType → List String → Go CsiVolume
  fresh_volume fuel req access nodes = if ltb (byte_size req.name) 4 then crash else do
    vol ← wrap internal (
        create_flexblock_volume env fuel (skip_bytes 4 req.name) req.name
          (required_bytes req.capacity_range) access false)
    populate_or_delete (skip_bytes 4 req.name) (required_bytes req.capacity_range) access
        req.volume_content_source
    pure (created req (skip_bytes 4 req.name) (required_bytes req.capacity_range) nodes)

  -- CreateVolume, behind the checks of the request
  unfoldable pub create_or_reuse :
      ℕ → ControllerServer → CreateVolumeRequest → List Access → Go CsiVolume
  create_or_reuse fuel cs req caps = do
    require (not (any_block caps && any_mount caps)) (status invalid_argument)
    require (ltb_ℤ (required_bytes req.capacity_range) max_storage_capacity) (status out_of_range)
    nodes ← topologies cs
    existing ← optional (get_volume_by_name env req.name)
    maybe existing (fresh_volume fuel req (requested_access caps) nodes) (reuse_volume req nodes)

  -- CreateVolume
  unfoldable pub create_volume : ℕ → ControllerServer → CreateVolumeRequest → Go CsiVolume
  create_volume fuel cs req = do
    validate_request cs create_delete_volume
    require (not (req.name =ₛ "")) (status invalid_argument)
    maybe req.volume_capabilities (raise (status invalid_argument)) (create_or_reuse fuel cs req)
