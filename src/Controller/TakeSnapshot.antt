-- ===== src/Controller/TakeSnapshot.antt =====
-- pkg/flexblock/controllerserver.go: CreateSnapshot.
use csi_driver_flexblock.Controller.Snapshots.{to_csi}
use csi_driver_flexblock.Driver.Disk.{checked}
use csi_driver_flexblock.Store.{put_snapshot, get_snapshot_by_name}
use csi_driver_flexblock.Sys.{now, new_uuid}
use csi_driver_flexblock.Paths.{get_snapshot_path}
use csi_driver_flexblock.Csi.{CsiSnapshot}
use csi_driver_flexblock.Controller.{
  not_implemented, create_delete_snapshot, validate_request, ControllerServer,
}
use csi_driver_flexblock.Go.{
  already_exists, pure, optional, internal, invalid_argument, status, raise, maybe, gets, require,
  ◌>>=◌, ◌>>◌, Go,
}
use csi_driver_flexblock.Env.{Env}
use csi_driver_flexblock.Volume.{lookup, block_access, Snapshot, Timestamp, AccessType, Volume}
use csi_driver_flexblock.Prelude.{if◌then◌else◌, ◌=ₛ◌, not, true, some, List, String, ◌∷◌, []}

-- `cp` or `tar`, by the access type of the volume
abbrev pub snapshot_command : AccessType → String → String → List String
snapshot_command block_access path file = "cp" ∷ path ∷ file ∷ []
snapshot_command _ path file = "tar" ∷ "czf" ∷ file ∷ "-C" ∷ path ∷ "." ∷ []

abbrev pub new_snapshot : String → String → Volume → String → Timestamp → Snapshot
new_snapshot name id vol volume_id time = record {
  name = name;
  id = id;
  vol_id = volume_id;
  path = get_snapshot_path id;
  creation_time = some time;
  size_bytes = vol.vol_size;
  ready_to_use = true;
}

module _ (env : Env) where
  -- from the check of the source volume on
  unfoldable pub take_snapshot : String → String → Go CsiSnapshot
  take_snapshot name volume_id = do
    found ← gets (λ s. lookup volume_id s.volumes)
    maybe found (raise (status internal)) λ vol. do
      id ← new_uuid env
      time ← now env
      checked env (snapshot_command vol.vol_access_type vol.vol_path (get_snapshot_path id))
      put_snapshot id (new_snapshot name id vol volume_id time)
      pure (to_csi (new_snapshot name id vol volume_id time))

  -- what stands behind the second return of CreateSnapshot
  unfoldable pub create_snapshot_rest : String → String → Go CsiSnapshot
  create_snapshot_rest name volume_id = do
    require (not (name =ₛ "")) (status invalid_argument)
    require (not (volume_id =ₛ "")) (status invalid_argument)
    existing ← optional (get_snapshot_by_name env name)
    maybe existing (take_snapshot name volume_id) λ snap.
        if snap.vol_id =ₛ volume_id then pure (to_csi snap) else raise (status already_exists)

  -- CreateSnapshot: its second statement returns, and the rest is never run.
  unfoldable pub create_snapshot : ControllerServer → String → String → Go CsiSnapshot
  create_snapshot cs name volume_id = do
    validate_request cs create_delete_snapshot
    not_implemented
    create_snapshot_rest name volume_id
