-- ===== src/Spec/Gone.antt =====
-- Calls of Rpc.antt behind a deletion.
use csi_driver_flexblock.Controller.Volumes.{delete_volume}
use csi_driver_flexblock.Spec.Promised.{Settles-delete_volume}
use csi_driver_flexblock.Spec.Answers.{Settles-handle}
use csi_driver_flexblock.Spec.View.{view}
use csi_driver_flexblock.Spec.Untouched.{untouched-serve, NoneNames}
use csi_driver_flexblock.Go.{ok}
use csi_driver_flexblock.Identity.{Servers}
use csi_driver_flexblock.Env.{Globals, Env}
use csi_driver_flexblock.Prelude.{◌∙◌, none, ◌≡◌, List, ℕ, String, ◌∷◌}
use csi_driver_flexblock.Rpc.{handler, Rpc, handle, serve, delete_volume_rpc}

-- A volume that a DeleteVolume answered without an error stays missing behind any calls that do not name its id,
-- whatever the environment answers.
pub gone-serve :
    (env : Env) (fuel : ℕ) (srv : Servers) (id : String) (rs : List Rpc) (s : Globals)
    → (handle env fuel srv (delete_volume_rpc id) s).0 ≡ ok tt
    → NoneNames id rs
    → view (serve env fuel srv (delete_volume_rpc id ∷ rs) s).volumes id ≡ none
unfolding serve handler delete_volume
gone-serve env fuel srv id rs s answered others =
    let t = (handle env fuel srv (delete_volume_rpc id) s).1 in
    rw answered (
      untouched-serve env fuel srv id rs t others
      ∙ Settles-handle env fuel srv (delete_volume_rpc id) s (λ new. view new id ≡ none)
          (Settles-delete_volume env s.volumes srv.cs id) answered)
