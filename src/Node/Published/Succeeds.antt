-- ===== src/Node/Published/Succeeds.antt =====
-- A NodePublishVolume that succeeds.
use csi_driver_flexblock.Go.Inversion.{ok_inj, err_ne_ok}
use csi_driver_flexblock.Node.Frame.{Frame-publish_volume}
use csi_driver_flexblock.Go.Ends.{
  Ends-Anything, Anything, Ends-bind, Ends-require, Ends-raise, Ends-maybe, Always, Ends,
}
use csi_driver_flexblock.Store.{get_volume_by_id}
use csi_driver_flexblock.Volume.{lookup, Volume}
use csi_driver_flexblock.Node.{NodeServer}
use csi_driver_flexblock.Node.Publish.{publish_checked, node_publish_volume, publish_volume}
use csi_driver_flexblock.Go.{ok, not_found, wrap}
use csi_driver_flexblock.Csi.{
  wants_mount, wants_block, no_access, block_volume, mount_volume, Access, NodePublishRequest,
}
use csi_driver_flexblock.Env.{Globals, Env}
use csi_driver_flexblock.Prelude.{
  true, ◌||◌, inr, sym, some_inj, inl, ◌∙◌, subst, Option-cases, ap, some, ◌≡◌, ℕ,
}
use csi_driver_flexblock.Node.Published.{Published, Ends-publish_mount, Ends-publish_block}

module _ (env : Env) (req : NodePublishRequest) where
  -- the volume of the request is in the map, and published as the capability asks
  abbrev pub IsPublished : Access → Globals → Type 0
  IsPublished access t =
      (vol : Volume) × (lookup req.volume_id t.volumes ≡ some vol)
      × Published env access vol req t.calls

  Ends-publish_volume :
      (access : Access) (vol : Volume)
      → (wants_block access || wants_mount access) ≡ true
      → Ends
          (λ s. lookup req.volume_id s.volumes ≡ some vol)
          (λ u t. IsPublished access t)
          (publish_volume env req access vol)
  unfolding publish_volume
  Ends-publish_volume mount_volume vol asks = record {
    at = λ s p u e. (
      vol,
      ap (lookup req.volume_id) ((Frame-publish_volume env req mount_volume vol).volumes s) ∙ p,
      (Ends-publish_mount env req vol).at s tt u e,
    );
  }
  Ends-publish_volume block_volume vol asks = record {
    at = λ s p u e. (
      vol,
      ap (lookup req.volume_id) ((Frame-publish_volume env req block_volume vol).volumes s) ∙ p,
      (Ends-publish_block env req vol).at s tt u e,
    );
  }
  Ends-publish_volume no_access vol asks = cc

  Ends-get_volume :
      Ends Always
        (λ vol s. lookup req.volume_id s.volumes ≡ some vol)
        (wrap not_found (get_volume_by_id req.volume_id))
  unfolding wrap get_volume_by_id
  Ends-get_volume = record {
    at = λ s p vol e. elim (Option-cases (lookup req.volume_id s.volumes)) [
      | inl absent ↦ absurd (err_ne_ok (rw absent at e))
      | inr (w, found) ↦ found ∙ ap some (ok_inj (rw found at e))
    ];
  }

  Ends-node_publish_volume :
      (fuel : ℕ) (ns : NodeServer) (access : Access)
      → req.volume_capability ≡ some access
      → (wants_block access || wants_mount access) ≡ true
      → Ends Always (λ u t. IsPublished access t) (node_publish_volume env fuel ns req)
  unfolding node_publish_volume publish_checked
  Ends-node_publish_volume fuel ns access asked asks =
      Ends-maybe _ _ _ (λ _. Ends-raise _)
        λ given there.
          subst (λ a. Ends Always (λ u t. IsPublished access t) (publish_checked env fuel ns req a))
            (some_inj access given (sym asked ∙ there))
            (Ends-require _ _ _ λ _. Ends-require _ _ _ λ _.
              Ends-bind Anything _ _ (Ends-Anything _)
                λ _. Ends-bind _ _ _ Ends-get_volume λ vol. Ends-publish_volume access vol asks)

-- Where a NodePublishVolume whose capability asks for a block or a mount volume succeeds, the volume is in the map, its
-- access type is the one asked for, and the last call has found the target mounted already, or has mounted there,
-- and not failed: for a block volume its device; for a mount volume its directory, with the options of the
-- request, or the device of the id, with no options.
pub published :
    (env : Env) (fuel : ℕ) (ns : NodeServer) (req : NodePublishRequest) (access : Access)
    (s : Globals)
    → req.volume_capability ≡ some access
    → (wants_block access || wants_mount access) ≡ true
    → (node_publish_volume env fuel ns req s).0 ≡ ok tt
    → IsPublished env req access (node_publish_volume env fuel ns req s).1
published env fuel ns req access s asked asks h =
    (Ends-node_publish_volume env req fuel ns access asked asks).at s tt tt h
