-- ===== src/Controller/Checks.antt =====
-- What CreateVolume checks of a request, and what it does behind the checks.
use csi_driver_flexblock.Prelude.Int.{ltb_ℤ}
use csi_driver_flexblock.Go.Inversion.{maybe-some, require-bind, maybe_inv, require_inv}
use csi_driver_flexblock.Sys.{read_file}
use csi_driver_flexblock.Store.{find_volume_name, get_volume_by_name}
use csi_driver_flexblock.Volume.{max_storage_capacity, Volume}
use csi_driver_flexblock.Prelude.Text.{split}
use csi_driver_flexblock.Go.{pure, ok, maybe, optional, ◌>>=◌, Go}
use csi_driver_flexblock.Controller.Create.{
  any_mount, any_block, reuse_volume, requested_access, fresh_volume, topologies, create_or_reuse,
  create_volume,
}
use csi_driver_flexblock.Conf.{node_list}
use csi_driver_flexblock.Csi.{required_bytes, CsiVolume, Access, CreateVolumeRequest}
use csi_driver_flexblock.Controller.{
  has_rpc, create_delete_volume, rpc_number, validate_request, ControllerServer,
}
use csi_driver_flexblock.Env.{Call, Env, Globals}
use csi_driver_flexblock.Prelude.{
  inr, inl, ◌∙◌, Option-cases, sym, ◌&&◌, ◌=ₛ◌, not, true, ◌||◌, ◌==◌, String, ℕ, List, [], ◌∷◌,
  Option, none, some, ◌≡◌, refl,
}

-- The driver's state behind the read of the node list.
abbrev pub after_nodes : Globals → Globals
after_nodes s = record s {
  calls = Call.read_file "/etc/neucli/flexblock_plugin_node_list" ∷ s.calls;
}

pub nodes_of : ControllerServer → Option String → List String
nodes_of cs text = elim text [ none ↦ cs.node_id ∷ [] | some t ↦ node_list (split 10 t) ]

pub topologies-bind :
    (env : Env) (cs : ControllerServer) (k : List String → Go CsiVolume) (s : Globals)
    → (topologies env cs >>= k) s
      ≡ k
          (nodes_of cs (env.read_file_answer s.calls "/etc/neucli/flexblock_plugin_node_list"))
          (after_nodes s)
unfolding topologies read_file nodes_of pure ◌>>=◌
topologies-bind env cs k s = refl

-- The lookup by name, which reads and does not write.
pub lookup-bind :
    (env : Env) (name : String) (k : Option Volume → Go CsiVolume) (s : Globals)
    → (optional (get_volume_by_name env name) >>= k) s
      ≡ k (find_volume_name name (env.range_volumes s.calls s.volumes)) s
unfolding optional get_volume_by_name ◌>>=◌
lookup-bind env name k s =
    elim (Option-cases (find_volume_name name (env.range_volumes s.calls s.volumes))) [
      | inl nothing ↦ rw nothing
      | inr (vol, found) ↦ rw found
    ]

module _ (env : Env) (fuel : ℕ) (cs : ControllerServer) (req : CreateVolumeRequest) where
  -- The checks of a request, and the branch behind them.
  unfoldable pub branch : List Access → List String → Go CsiVolume
  branch caps nodes = do
    existing ← optional (get_volume_by_name env req.name)
    maybe existing (fresh_volume env fuel req (requested_access caps) nodes)
        (reuse_volume req nodes)

  -- What CreateVolume checks of a request.
  pub record Passes (caps : List Access) : Type 0 where
    pub rpc :
        ((rpc_number create_delete_volume == 0) || has_rpc create_delete_volume cs.caps) ≡ true
    pub name : not (req.name =ₛ "") ≡ true
    pub asked : req.volume_capabilities ≡ some caps
    pub one_access : not (any_block caps && any_mount caps) ≡ true
    pub below : ltb_ℤ (required_bytes req.capacity_range) max_storage_capacity ≡ true

  pub Passes-of_ok :
      (s t : Globals) (v : CsiVolume)
      → create_volume env fuel cs req s ≡ (ok v, t)
      → (caps : List Access) × Passes caps
        × (branch caps
              (nodes_of cs (env.read_file_answer s.calls "/etc/neucli/flexblock_plugin_node_list"))
              (after_nodes s)
            ≡ (ok v, t))
  unfolding create_volume validate_request create_or_reuse branch
  Passes-of_ok s t v h =
      let a = require_inv _ _ _ s h in
      let b = require_inv _ _ _ s a.1 in
      let (caps, asked, c) = maybe_inv req.volume_capabilities _ _ s b.1 in
      let d = require_inv _ _ _ s c in
      let e = require_inv _ _ _ s d.1 in
      (
        caps,
        record { rpc = a.0; name = b.0; asked = asked; one_access = d.0; below = e.0 },
        sym (topologies-bind env cs _ s) ∙ e.1,
      )

  pub Passes-run :
      (s : Globals) (caps : List Access)
      → Passes caps
      → create_volume env fuel cs req s
        ≡ branch caps
            (nodes_of cs (env.read_file_answer s.calls "/etc/neucli/flexblock_plugin_node_list"))
            (after_nodes s)
  unfolding create_volume validate_request create_or_reuse branch
  Passes-run s caps p =
      require-bind _ _ _ s p.rpc
      ∙ require-bind _ _ _ s p.name
      ∙ maybe-some _ _ _ s caps p.asked
      ∙ require-bind _ _ _ s p.one_access
      ∙ require-bind _ _ _ s p.below
      ∙ topologies-bind env cs _ s
