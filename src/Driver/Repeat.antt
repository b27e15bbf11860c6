-- ===== src/Driver/Repeat.antt =====
-- Deleting a volume that is deleted already.
use csi_driver_flexblock.Driver.Laws.{Deleted-delete_and_store}
use csi_driver_flexblock.Go.{Result, ◌>>=◌, pure, maybe, gets, ok}
use csi_driver_flexblock.Volume.{lookup-erase, Volume, erase, lookup, AccessType, Volumes}
use csi_driver_flexblock.Driver.Delete.{delete_and_store, delete_flexblock_volume}
use csi_driver_flexblock.Env.{Globals, Env}
use csi_driver_flexblock.Prelude.{
  inr, sym, eq_refl, ◌∙◌, some, ap, none, inl, Option-cases, refl, ◌≡◌, String,
}

module _ (env : Env) (id : String) where
  delete_missing :
      (s : Globals) → lookup id s.volumes ≡ none → delete_flexblock_volume env id s ≡ (ok tt, s)
  unfolding delete_flexblock_volume gets maybe pure ◌>>=◌
  delete_missing s absent = rw absent refl

  pub delete_found :
      (s : Globals) (vol : Volume)
      → lookup id s.volumes ≡ some vol
      → delete_flexblock_volume env id s ≡ delete_and_store env id vol.vol_access_type s
  unfolding delete_flexblock_volume gets maybe ◌>>=◌
  delete_found s vol found = rw found refl

  lookup_erased : (vs : Volumes) → lookup id (erase id vs) ≡ none
  lookup_erased vs = lookup-erase id id vs ∙ rw (eq_refl id) refl

  -- what a successful deletion leaves
  absent_after :
      (s t : Globals) (access : AccessType)
      → delete_and_store env id access s ≡ (ok tt, t)
      → lookup id t.volumes ≡ none
  absent_after s t access h =
      let left = rw h at (Deleted-delete_and_store env id access s) in
      rw left (lookup_erased s.volumes)

  -- A volume that was deleted, or was never there, can be deleted again: the call succeeds, and
  -- neither calls anything nor changes anything.
  pub delete_again :
      (s t : Globals)
      → delete_flexblock_volume env id s ≡ (ok tt, t)
      → delete_flexblock_volume env id t ≡ (ok tt, t)
  delete_again s t h = elim (Option-cases (lookup id s.volumes)) [
    | inl absent ↦
        let same =
          ap (λ (p : Result (Unit {0}) × Globals). p.1) (sym (delete_missing s absent) ∙ h) in
        rw (← same) (delete_missing s absent)
    | inr (vol, found) ↦
        delete_missing t (absent_after s t vol.vol_access_type (sym (delete_found s vol found) ∙ h))
  ]
