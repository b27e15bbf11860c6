-- ===== src/Controller/Frame.antt =====
-- What the controller does beside creating, deleting and resizing volumes leaves the maps alone.
use csi_driver_flexblock.Go.{◌>>◌, Go, ◌>>=◌, raise}
use csi_driver_flexblock.Driver.Frame.{Frame-checked}
use csi_driver_flexblock.Remote.Frame.{frame_remote}
use csi_driver_flexblock.Prelude.Int.{ℤ}
use csi_driver_flexblock.Volume.{block_access, mount_access, other_access, AccessType, Volume}
use csi_driver_flexblock.Go.Frame.{Frame-require, Frame-bind, Frame}
use csi_driver_flexblock.Driver.Load.{
  load_from_block_volume, load_from_filesystem_volume, load_from_snapshot, load_from_volume, unpack,
  copy_volume,
}
use csi_driver_flexblock.Csi.{
  improper_source, volume_source, snapshot_source, ContentSource, ListSnapshotsRequest, Access,
  CsiSnapshot, CreateVolumeRequest,
}
use csi_driver_flexblock.Controller.{ControllerServer, not_implemented, validate_request}
use csi_driver_flexblock.Store.{get_volume_by_name, get_volume_by_id}
use csi_driver_flexblock.Controller.TakeSnapshot.{create_snapshot}
use csi_driver_flexblock.Controller.Snapshots.{
  list_snapshots_rpc, sorted_snapshots, list_page, page_from,
}
use csi_driver_flexblock.Controller.Create.{topologies, populate, reuse_volume, check_source}
use csi_driver_flexblock.Env.{Env}
use csi_driver_flexblock.Controller.Volumes.{validate_volume_capabilities}
use csi_driver_flexblock.Prelude.Int.{pos, negsuc}
use csi_driver_flexblock.Prelude.{String, List, Option, none, some, refl}

pub Frame-get_volume_by_id : (id : String) → Frame (get_volume_by_id id)
unfolding get_volume_by_id
Frame-get_volume_by_id id = record {
  volumes = λ s. refl;
  snapshots = λ s. refl;
  written = λ s. refl;
}

pub Frame-validate_volume_capabilities :
    (id : String) (caps : List Access) → Frame (validate_volume_capabilities id caps)
unfolding validate_volume_capabilities
Frame-validate_volume_capabilities id caps = search (frame_remote, Frame-get_volume_by_id) depth 8

pub Frame-check_source :
    (vol : Volume) (source : Option ContentSource) → Frame (check_source vol source)
unfolding check_source
Frame-check_source vol none = search frame_remote
Frame-check_source vol (some (snapshot_source none)) = search frame_remote
Frame-check_source vol (some (snapshot_source (some id))) = search frame_remote
Frame-check_source vol (some (volume_source none)) = search frame_remote
Frame-check_source vol (some (volume_source (some id))) = search frame_remote
Frame-check_source vol (some improper_source) = search frame_remote

pub Frame-reuse_volume :
    (req : CreateVolumeRequest) (nodes : List String) (vol : Volume)
    → Frame (reuse_volume req nodes vol)
unfolding reuse_volume
Frame-reuse_volume req nodes vol = search (frame_remote, Frame-check_source)

-- Nothing is run behind an error.
Frame-not_implemented_bind {ℓ} : {A : Type ℓ} (k : Go A) → Frame (not_implemented >> k)
unfolding not_implemented raise ◌>>=◌
Frame-not_implemented_bind k = record {
  volumes = λ s. refl;
  snapshots = λ s. refl;
  written = λ s. refl;
}

pub Frame-create_snapshot :
    (env : Env) (cs : ControllerServer) (name volume_id : String)
    → Frame (create_snapshot env cs name volume_id)
unfolding create_snapshot validate_request
Frame-create_snapshot env cs name volume_id =
    Frame-bind _ _ (Frame-require _ _) λ _. Frame-not_implemented_bind _

Frame-page_from : (snaps : List CsiSnapshot) (start count : ℤ) → Frame (page_from snaps start count)
unfolding page_from
Frame-page_from snaps (pos j) (pos n) = search frame_remote
Frame-page_from snaps (pos j) (negsuc n) = search frame_remote
Frame-page_from snaps (negsuc j) (pos n) = search frame_remote
Frame-page_from snaps (negsuc j) (negsuc n) = search frame_remote

Frame-list_page :
    (snaps : List CsiSnapshot) (req : ListSnapshotsRequest) → Frame (list_page snaps req)
unfolding list_page
Frame-list_page snaps req = search (frame_remote, Frame-page_from) depth 8

module _ (env : Env) where
  pub Frame-get_volume_by_name : (name : String) → Frame (get_volume_by_name env name)
  unfolding get_volume_by_name
  Frame-get_volume_by_name name = record {
    volumes = λ s. refl;
    snapshots = λ s. refl;
    written = λ s. refl;
  }

  pub Frame-topologies : (cs : ControllerServer) → Frame (topologies env cs)
  unfolding topologies
  Frame-topologies cs = search frame_remote

  Frame-unpack :
      (access : AccessType) (snapshot_path dest_path : String)
      → Frame (unpack env access snapshot_path dest_path)
  unfolding unpack
  Frame-unpack mount_access snapshot_path dest_path = Frame-checked env _
  Frame-unpack block_access snapshot_path dest_path = Frame-checked env _
  Frame-unpack (other_access n) snapshot_path dest_path = search frame_remote

  Frame-load_from_snapshot :
      (size : ℤ) (id path : String) (mode : AccessType)
      → Frame (load_from_snapshot env size id path mode)
  unfolding load_from_snapshot
  Frame-load_from_snapshot size id path mode = search (frame_remote, Frame-unpack) depth 9

  Frame-copy_volume :
      (mode : AccessType) (vol : Volume) (path : String) → Frame (copy_volume env mode vol path)
  unfolding copy_volume load_from_filesystem_volume load_from_block_volume
  Frame-copy_volume mount_access vol path = search (frame_remote, Frame-checked) depth 8
  Frame-copy_volume block_access vol path = search (frame_remote, Frame-checked) depth 8
  Frame-copy_volume (other_access n) vol path = search frame_remote

  Frame-load_from_volume :
      (size : ℤ) (id path : String) (mode : AccessType)
      → Frame (load_from_volume env size id path mode)
  unfolding load_from_volume
  Frame-load_from_volume size id path mode = search (frame_remote, Frame-copy_volume) depth 9

  pub Frame-populate :
      (capacity : ℤ) (path : String) (access : AccessType) (source : Option ContentSource)
      → Frame (populate env capacity path access source)
  unfolding populate
  Frame-populate capacity path access none = search frame_remote
  Frame-populate capacity path access (some (snapshot_source none)) = search frame_remote
  Frame-populate capacity path access (some (snapshot_source (some id))) =
      Frame-load_from_snapshot capacity id path access
  Frame-populate capacity path access (some (volume_source none)) = search frame_remote
  Frame-populate capacity path access (some (volume_source (some id))) =
      Frame-load_from_volume capacity id path access
  Frame-populate capacity path access (some improper_source) = search frame_remote

  Frame-sorted_snapshots : Frame (sorted_snapshots env)
  unfolding sorted_snapshots
  Frame-sorted_snapshots = search frame_remote

  pub Frame-list_snapshots_rpc :
      (cs : ControllerServer) (req : ListSnapshotsRequest) → Frame (list_snapshots_rpc env cs req)
  unfolding list_snapshots_rpc validate_request
  Frame-list_snapshots_rpc cs req =
      search (frame_remote, Frame-sorted_snapshots, Frame-list_page) depth 10
