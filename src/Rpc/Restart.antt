-- ===== src/Rpc/Restart.antt =====
-- The start of the driver from the file that another run of it has written.
use csi_driver_flexblock.Rpc.Saved.{IsSaved-serve, IsSaved}
use csi_driver_flexblock.Driver.Laws.{CanSave}
use csi_driver_flexblock.Rpc.{serve, Rpc}
use csi_driver_flexblock.Identity.{FlexBlock, Servers, run_driver}
use csi_driver_flexblock.Go.{◌>>=◌, pure, maybe, modify}
use csi_driver_flexblock.Store.{
  discover_existing_snapshots, csi_json_file, decode_file, is_not_exist, discover_existing_vol,
}
use csi_driver_flexblock.Volume.{lookup, Volumes}
use csi_driver_flexblock.Env.{last_written, Globals, History, Env}
use csi_driver_flexblock.Prelude.{List, ℕ, some, false, ◌≡◌, String, []}
use csi_driver_flexblock.Sys.{read_dir, lstat, read_file}

-- The file of the volumes is there, and is read and decoded as this map. Its text may list them in any order.
pub record FileHolds (env : Env) (vs : Volumes) : Type 0 where
  pub text : String
  pub there : (h : History) → is_not_exist (env.lstat_answer h csi_json_file) ≡ false
  pub readable : (h : History) → env.read_file_answer h csi_json_file ≡ some text
  pub decoded : (j : String) → lookup j (env.decode_volumes text []) ≡ lookup j vs

module _ (env : Env) (vs : Volumes) (holds : FileHolds env vs) where
  lookup-run_driver :
      (hp : FlexBlock) (s : Globals) (j : String)
      → s.volumes ≡ []
      → lookup j (run_driver env hp s).1.volumes ≡ lookup j vs
  unfolding run_driver discover_existing_vol discover_existing_snapshots lstat read_file read_dir
      decode_file modify maybe pure ◌>>=◌
  lookup-run_driver hp s j empty =
      rw (holds.there s.calls) (rw (holds.readable _) (rw empty (holds.decoded j)))

-- If the file of the volumes can be opened and the map encoded to it, and it held the driver's map, and any calls have
-- been served since, those that fail
-- included, then a driver that is started with no volumes, where the file holds the map that was last
-- written to it, comes to have the same volumes under the same ids.
pub restart-serve :
    (env : Env) (fuel : ℕ) (srv : Servers) (rs : List Rpc) (s : Globals) (again : Env)
    (hp : FlexBlock) (t : Globals)
    → CanSave env
    → IsSaved s
    → ((vs : Volumes) → last_written (serve env fuel srv rs s).calls ≡ some vs → FileHolds again vs)
    → t.volumes ≡ []
    → (j : String)
    → lookup j (run_driver again hp t).1.volumes ≡ lookup j (serve env fuel srv rs s).volumes
restart-serve env fuel srv rs s again hp t can saved file empty j =
    lookup-run_driver again _ (file _ (IsSaved-serve env can fuel srv rs s saved)) hp t j empty
