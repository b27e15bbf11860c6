-- ===== src/Controller/Expand.antt =====
-- What ControllerExpandVolume replies, and what it leaves in the map of volumes.
use csi_driver_flexblock.Store.{get_volume_by_id}
use csi_driver_flexblock.Driver.Laws.{Updated-resize_and_store, Updated}
use csi_driver_flexblock.Csi.{ExpandResponse}
use csi_driver_flexblock.Driver.Update.{resize_and_store, update_flexblock_volume}
use csi_driver_flexblock.Prelude.Int.{ltb_ℤ, ◌≤ℤ◌, ℤ}
use csi_driver_flexblock.Go.{
  not_found, out_of_range, invalid_argument, raise, ◌>>◌, require, pending, internal, panic, status,
  recode, err, continue, ok, ◌>>=◌, Result, maybe, wrap, Go, gets, pure,
}
use csi_driver_flexblock.Controller.Volumes.{controller_expand_volume, grow}
use csi_driver_flexblock.Volume.{max_storage_capacity, insert, lookup, Volumes, Volume}
use csi_driver_flexblock.Env.{Globals, Env}
use csi_driver_flexblock.Prelude.{
  false, ◌=ₛ◌, not, Bool, inr, arith, inl, Bool-cases, some, ◌⊎◌, true, refl, ◌≡◌, String,
}

-- The reply of an expansion of `vol` to `capacity`, from the map `old` to the map `new`.
abbrev pub Expanded : String → Volume → ℤ → Volumes → Result ExpandResponse → Volumes → Type 0
Expanded id vol capacity old (ok r) new =
    (r.node_expansion_required ≡ true)
    × (vol.vol_size ≤ℤ r.capacity_bytes)
    × (capacity ≤ℤ r.capacity_bytes)
    × (((new ≡ old) × (r.capacity_bytes ≡ vol.vol_size))
        ⊎ ((new ≡ insert id (record vol { vol_size = capacity }) old)
            × (r.capacity_bytes ≡ capacity)))
Expanded id vol capacity old (err e) new = new ≡ old
Expanded id vol capacity old panic new = new ≡ old
Expanded id vol capacity old pending new = new ≡ old

module _ (env : Env) (id : String) (vol : Volume) where
  updated_reply : ℤ → Unit {0} → Go ExpandResponse
  updated_reply capacity u =
      pure (record { capacity_bytes = capacity; node_expansion_required = true })

  Expanded-reply :
      (capacity : ℤ) (old : Volumes) (r : Result (Unit {0})) (s : Globals)
      → vol.vol_size ≤ℤ capacity
      → capacity ≤ℤ capacity
      → Updated id (record vol { vol_size = capacity }) old r s.volumes
      → Expanded id vol capacity old
          (continue (recode (λ _. status internal) r) (updated_reply capacity) s).0
          (continue (recode (λ _. status internal) r) (updated_reply capacity) s).1.volumes
  unfolding updated_reply pure
  Expanded-reply capacity old (ok u) s below same kept = (refl, below, same, inr (kept, refl))
  Expanded-reply capacity old (err e) s below same kept = kept
  Expanded-reply capacity old panic s below same kept = kept
  Expanded-reply capacity old pending s below same kept = kept

  pub update_found :
      (new : Volume) (s : Globals)
      → lookup id s.volumes ≡ some vol
      → update_flexblock_volume env id new s ≡ resize_and_store env id new vol.vol_access_type s
  unfolding update_flexblock_volume gets maybe ◌>>=◌
  update_found new s found = rw found refl

  -- the handler, with the results of its two tests
  checked_expansion : ℤ → Bool → Bool → Go ExpandResponse
  checked_expansion capacity named below = do
    require named (status invalid_argument)
    require below (status out_of_range)
    found ← wrap not_found (get_volume_by_id id)
    grow env id found capacity

  Expanded-grow :
      (capacity : ℤ) (s : Globals)
      → lookup id s.volumes ≡ some vol
      → Expanded id vol capacity s.volumes
          (grow env id vol capacity s).0
          (grow env id vol capacity s).1.volumes
  unfolding grow wrap ◌>>=◌ pure updated_reply
  Expanded-grow capacity s found = elim (Bool-cases (ltb_ℤ vol.vol_size capacity)) [
    | inl larger ↦ rw larger (
        rw (update_found (record vol { vol_size = capacity }) s found) (
          Expanded-reply capacity s.volumes
            (resize_and_store env id (record vol { vol_size = capacity }) vol.vol_access_type s).0
            (resize_and_store env id (record vol { vol_size = capacity }) vol.vol_access_type s).1
            (ground arith) (ground arith)
            (Updated-resize_and_store env id (record vol { vol_size = capacity })
              vol.vol_access_type s)))
    | inr enough ↦ rw enough (refl, ground arith, ground arith, inl (refl, refl))
  ]

  Expanded-controller_checked :
      (capacity : ℤ) (named below : Bool) (s : Globals)
      → lookup id s.volumes ≡ some vol
      → Expanded id vol capacity s.volumes
          (checked_expansion capacity named below s).0
          (checked_expansion capacity named below s).1.volumes
  unfolding checked_expansion require wrap get_volume_by_id ◌>>=◌ raise pure
  Expanded-controller_checked capacity false below s found = refl
  Expanded-controller_checked capacity true false s found = refl
  Expanded-controller_checked capacity true true s found = rw found (Expanded-grow capacity s found)

  -- ControllerExpandVolume of an id that is in the map, whatever its commands answer, either fails and
  -- leaves the map as it was, or replies a size of at least the volume's and at least the requested one, which is
  -- the size that the map has for it then: the map is unchanged if the volume was large enough, and else
  -- has the volume with its size changed and nothing else.
  pub Expanded-controller_expand_volume :
      (capacity : ℤ) (s : Globals)
      → lookup id s.volumes ≡ some vol
      → Expanded id vol capacity s.volumes
          (controller_expand_volume env id (some capacity) s).0
          (controller_expand_volume env id (some capacity) s).1.volumes
  unfolding controller_expand_volume checked_expansion maybe
  Expanded-controller_expand_volume capacity s found =
      Expanded-controller_checked capacity (not (id =ₛ "")) (ltb_ℤ capacity max_storage_capacity) s
        found
