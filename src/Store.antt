-- ===== src/Store.antt =====
-- The maps of volumes and snapshots: lookups, the file that keeps the volumes, and what is found at
-- the start (pkg/flexblock/flexblock.go).
pub mod Range
pub mod Discover
use csi_driver_flexblock.Sys.{write_volumes, read_file, open_write, lstat, read_dir, mkdir_all}
use csi_driver_flexblock.Prelude.Int.{pos}
use csi_driver_flexblock.Paths.{data_root, get_snapshot_id, get_snapshot_path}
use csi_driver_flexblock.Go.{pure, maybe, ◌>>=◌, ok, plain, modify, err, Result, Go}
use csi_driver_flexblock.Volume.{erase, insert, lookup, Snapshots, Snapshot, Volume, Volumes}
use csi_driver_flexblock.Env.{not_exist, Env, OsError}
use csi_driver_flexblock.Prelude.{
  ◌=ₛ◌, if◌then◌else◌, String, Bool, true, false, Option, none, some, List, [], ◌∷◌, refl,
}

abbrev pub csi_json_file : String
csi_json_file = "/etc/neucli/flexblock_csi_info.json"

abbrev or_plain {ℓ} : {A : Type ℓ} → Option A → Result A
or_plain none = err plain
or_plain (some a) = ok a

-- getVolumeByID
unfoldable pub get_volume_by_id : String → Go Volume
get_volume_by_id volume_id s = (or_plain (lookup volume_id s.volumes), s)

unfoldable pub find_volume_name : String → Volumes → Option Volume
find_volume_name name [] = none
find_volume_name name ((id, v) ∷ vs) =
    if v.vol_name =ₛ name then some v else find_volume_name name vs

unfoldable pub find_snapshot_name : String → Snapshots → Option Snapshot
find_snapshot_name name [] = none
find_snapshot_name name ((id, v) ∷ vs) =
    if v.name =ₛ name then some v else find_snapshot_name name vs

-- flexBlockVolumes[id] = v
unfoldable pub put_volume : String → Volume → Go (Unit {0})
put_volume id v = modify (λ s. record s { volumes = insert id v s.volumes })

-- delete(flexBlockVolumes, id)
unfoldable pub drop_volume : String → Go (Unit {0})
drop_volume id = modify (λ s. record s { volumes = erase id s.volumes })

unfoldable pub put_snapshot : String → Snapshot → Go (Unit {0})
put_snapshot id v = modify (λ s. record s { snapshots = insert id v s.snapshots })

unfoldable pub found_snapshot : String → Snapshot
found_snapshot id = record {
  name = "";
  id = id;
  vol_id = "";
  path = get_snapshot_path id;
  creation_time = none;
  size_bytes = pos 0;
  ready_to_use = true;
}

-- the loop of discoverExistingSnapshots over the names of files
unfoldable pub add_snapshots : List String → Snapshots → Snapshots
add_snapshots [] snaps = snaps
add_snapshots (file ∷ files) snaps =
    let (is_snapshot, id) = get_snapshot_id file in
    add_snapshots files (if is_snapshot then insert id (found_snapshot id) snaps else snaps)

abbrev pub is_not_exist : Option OsError → Bool
is_not_exist (some not_exist) = true
is_not_exist _ = false

module _ (env : Env) where
  -- getVolumeByName: the first volume of that name in the order of the range over the map
  unfoldable pub get_volume_by_name : String → Go Volume
  get_volume_by_name name s =
      (or_plain (find_volume_name name (env.range_volumes s.calls s.volumes)), s)

  -- getSnapshotByName
  unfoldable pub get_snapshot_by_name : String → Go Snapshot
  get_snapshot_by_name name s =
      (or_plain (find_snapshot_name name (env.range_snapshots s.calls s.snapshots)), s)

  -- saveExistingVol
  unfoldable pub save_existing_vol : Go (Unit {0})
  save_existing_vol = do
    made ← mkdir_all env "/etc/neucli"
    maybe made
        (do opened ← open_write env csi_json_file; maybe opened (write_volumes env) λ _. pure tt)
        λ _. pure tt

  -- the decoder behind os.Open
  unfoldable pub decode_file : String → Go (Unit {0})
  decode_file text = modify (λ s. record s { volumes = env.decode_volumes text s.volumes })

  -- discoverExistingVol
  unfoldable pub discover_existing_vol : Go (Unit {0})
  discover_existing_vol = do
    there ← lstat env csi_json_file
    if is_not_exist there
        then pure tt
        else do text ← read_file env csi_json_file; maybe text (pure tt) decode_file

  -- discoverExistingSnapshots
  unfoldable pub discover_existing_snapshots : Go (Unit {0})
  discover_existing_snapshots = do
    files ← read_dir env data_root
    modify (λ s. record s { snapshots = add_snapshots files s.snapshots })
