-- ===== src/Remote/Search.antt =====
-- createVol and getAndesVol look for a volume in the same list, one for the first and one for the last.
use csi_driver_flexblock.Remote.Volumes.{is_volume, no_volume}
use csi_driver_flexblock.Env.{VolInfo}
use csi_driver_flexblock.Remote.Volumes.{first_volume, last_volume}
use csi_driver_flexblock.Prelude.Int.{pos, ℤ}
use csi_driver_flexblock.Prelude.{
  inl, inr, [], ◌∷◌, true, false, Bool-cases, ◌⊎◌, List, refl, String, ◌≡◌,
}

module _ (cluster pool : ℤ) (name : String) where
  abbrev pub NoneFits : List VolInfo → Type 0
  NoneFits [] = Unit
  NoneFits (v ∷ vs) = (is_volume cluster pool name v ≡ false) × NoneFits vs

  -- At most one volume of the list has the name, the cluster and the pool.
  abbrev pub AtMostOne : List VolInfo → Type 0
  AtMostOne [] = Unit
  AtMostOne (v ∷ vs) = (is_volume cluster pool name v ≡ true → NoneFits vs) × AtMostOne vs

  last_volume-none :
      (found : ℤ × ℤ) (vs : List VolInfo)
      → NoneFits vs
      → last_volume cluster pool name found vs ≡ found
  unfolding last_volume
  last_volume-none found [] all = refl
  last_volume-none found (v ∷ vs) (other, all) = rw other (last_volume-none found vs all)

  -- If at most one volume of the list fits, then either none does, and createVol's search gives (-1, 0)
  -- and getAndesVol's (0, 0), or both searches give the same volume.
  pub searches_agree :
      (vs : List VolInfo)
      → AtMostOne vs
      → (NoneFits vs
          × (first_volume cluster pool name vs ≡ no_volume)
          × (last_volume cluster pool name (pos 0, pos 0) vs ≡ (pos 0, pos 0)))
        ⊎ (last_volume cluster pool name (pos 0, pos 0) vs ≡ first_volume cluster pool name vs)
  unfolding first_volume last_volume
  searches_agree [] one = inl (tt, refl, refl)
  searches_agree (v ∷ vs) (only, one) = elim (Bool-cases (is_volume cluster pool name v)) [
    | inl fits ↦ inr (rw fits (last_volume-none (v.volume_id, v.target_id) vs (only fits)))
    | inr other ↦ elim (searches_agree vs one) [
      | inl (all, first, last) ↦ inl ((other, all), rw other first, rw other last)
      | inr same ↦ inr (rw other same)
    ]
  ]
