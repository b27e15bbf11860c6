-- ===== src/Controller/Steps.antt =====
-- pkg/flexblock/controllerserver.go: CreateVolume in two steps, up to its look for a volume of that name, and from
-- there on. Nothing keeps another call from running between them.
use csi_driver_flexblock.Store.{get_volume_by_name}
use csi_driver_flexblock.Prelude.Int.{ltb_ℤ}
use csi_driver_flexblock.Controller.Create.{
  create_or_reuse, create_volume, topologies, any_mount, reuse_volume, requested_access, any_block,
  fresh_volume,
}
use csi_driver_flexblock.Volume.{max_storage_capacity, Volume}
use csi_driver_flexblock.Go.{
  pending, panic, err, ok, Error, continue, pure, optional, out_of_range, raise, invalid_argument,
  status, Result, maybe, require, ◌>>◌, Go, ◌>>=◌,
}
use csi_driver_flexblock.Csi.{required_bytes, CsiVolume, CreateVolumeRequest, Access}
use csi_driver_flexblock.Controller.{create_delete_volume, validate_request, ControllerServer}
use csi_driver_flexblock.Env.{Globals, Env}
use csi_driver_flexblock.Prelude.{
  none, some, fun_ext, ◌&&◌, ◌=ₛ◌, not, ◌≡◌, Option, ℕ, List, String, refl,
}

-- what is known behind the look for a volume of that name
pub record Looked : Type 0 where
  pub caps : List Access
  pub nodes : List String
  pub existing : Option Volume

module _ (env : Env) where
  unfoldable pub look_for : CreateVolumeRequest → ControllerServer → List Access → Go Looked
  look_for req cs caps = do
    require (not (any_block caps && any_mount caps)) (status invalid_argument)
    require (ltb_ℤ (required_bytes req.capacity_range) max_storage_capacity) (status out_of_range)
    nodes ← topologies env cs
    existing ← optional (get_volume_by_name env req.name)
    pure (record { caps = caps; nodes = nodes; existing = existing })

  -- CreateVolume, up to getVolumeByName
  unfoldable pub look : ControllerServer → CreateVolumeRequest → Go Looked
  look cs req = do
    validate_request cs create_delete_volume
    require (not (req.name =ₛ "")) (status invalid_argument)
    maybe req.volume_capabilities (raise (status invalid_argument)) (look_for req cs)

  -- CreateVolume, from there on
  unfoldable pub act : ℕ → CreateVolumeRequest → Looked → Go CsiVolume
  act fuel req looked =
      maybe looked.existing (fresh_volume env fuel req (requested_access looked.caps) looked.nodes)
        (reuse_volume req looked.nodes)

module _ {ℓ κ μ} {A : Type ℓ} {B : Type κ} {C : Type μ} where
  continue_bind :
      (r : Result A) (t : Globals) (f : A → Go B) (g : B → Go C)
      → continue (continue r f t).0 g (continue r f t).1 ≡ continue r (λ a. f a >>= g) t
  unfolding ◌>>=◌
  continue_bind (ok a) t f g = refl
  continue_bind (err e) t f g = refl
  continue_bind panic t f g = refl
  continue_bind pending t f g = refl

  bind_assoc : (m : Go A) (f : A → Go B) (g : B → Go C) → ((m >>= f) >>= g) ≡ (m >>= λ a. f a >>= g)
  unfolding ◌>>=◌
  bind_assoc m f g = fun_ext λ s. continue_bind (m s).0 (m s).1 f g

  maybe_bind :
      (o : Option A) (e : Error) (f : A → Go B) (g : B → Go C)
      → (maybe o (raise e) f >>= g) ≡ maybe o (raise e) (λ a. f a >>= g)
  unfolding maybe raise ◌>>=◌
  maybe_bind none e f g = refl
  maybe_bind (some a) e f g = refl

pure_bind {ℓ κ} : {A : Type ℓ} {B : Type κ} (a : A) (g : A → Go B) → (pure a >>= g) ≡ g a
unfolding pure ◌>>=◌
pure_bind a g = refl

module _ (env : Env) where
  -- the two steps, one after the other, are CreateVolume
  create_volume-split :
      (fuel : ℕ) (cs : ControllerServer) (req : CreateVolumeRequest)
      → create_volume env fuel cs req ≡ (look env cs req >>= act env fuel req)
  unfolding look look_for act create_volume create_or_reuse
  create_volume-split fuel cs req = simp (bind_assoc, maybe_bind, pure_bind)
