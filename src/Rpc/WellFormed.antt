-- ===== src/Rpc/WellFormed.antt =====
-- Well-formed maps of volumes: each volume is kept under its own id, is no larger than the largest
-- volume, and a mounted one under its own path.
use csi_driver_flexblock.Identity.{Servers}
use csi_driver_flexblock.Rpc.{serve, Rpc}
use csi_driver_flexblock.Go.Keeps.{Keeps-pure, Keeps-maybe, Keeps-gets, Keeps-bind, Keeps}
use csi_driver_flexblock.Driver.Laws.{
  Updated-resize_and_store, Deleted-delete_and_store, Created, IsPlaced, Updated, Created-create,
  Deleted,
}
use csi_driver_flexblock.Rpc.Invariant.{Invariant}
use csi_driver_flexblock.Rpc.Induction.{serve_induction}
use csi_driver_flexblock.Driver.Update.{update_flexblock_volume}
use csi_driver_flexblock.Driver.Delete.{delete_flexblock_volume}
use csi_driver_flexblock.Go.{pending, panic, err, ok, Result}
use csi_driver_flexblock.Prelude.Int.{◌≤ℤ◌, ℤ}
use csi_driver_flexblock.Volume.{
  max_storage_capacity, AccessType, insert, lookup, erase, Volume, Volumes,
}
use csi_driver_flexblock.Env.{Globals, Env}
use csi_driver_flexblock.Prelude.{
  eq_iff, subst, inr, inl, Bool, ◌=ₛ◌, Bool-cases, String, ℕ, List, [], ◌∷◌, some, ◌≡◌,
}

-- what holds of each volume in the map
abbrev pub Fits : String → Volume → Type 0
Fits id vol =
    (vol.vol_id ≡ id)
    × (vol.vol_size ≤ℤ max_storage_capacity)
    × IsPlaced id vol.vol_access_type vol.vol_path

abbrev pub AllFit : Volumes → Type 0
AllFit [] = Unit
AllFit ((id, vol) ∷ vs) = Fits id vol × AllFit vs

AllFit-lookup :
    (id : String) (vs : Volumes) (vol : Volume) → AllFit vs → lookup id vs ≡ some vol → Fits id vol
unfolding lookup
AllFit-lookup id [] vol fit found = cc
AllFit-lookup id ((j, w) ∷ vs) vol (fits, fit) found = elim (Bool-cases (j =ₛ id)) [
  | inl same ↦
      subst (λ v. Fits id v) (some_eq w vol (rw same at found))
        (subst (λ k. Fits k w) ((eq_iff j id).0 same) fits)
  | inr differ ↦ AllFit-lookup id vs vol fit (rw differ at found)
]
  where
    some_eq : (a b : Volume) → some a ≡ some b → a ≡ b
    some_eq a b e = cc

AllFit-erase : (id : String) (vs : Volumes) → AllFit vs → AllFit (erase id vs)
unfolding erase
AllFit-erase id [] fit = tt
AllFit-erase id ((j, w) ∷ vs) (fits, fit) = elim (Bool-cases (j =ₛ id)) [
  | inl same ↦ rw same (AllFit-erase id vs fit)
  | inr differ ↦ rw differ (fits, AllFit-erase id vs fit)
]

AllFit-insert :
    (id : String) (vol : Volume) (vs : Volumes)
    → Fits id vol
    → AllFit vs
    → AllFit (insert id vol vs)
unfolding insert
AllFit-insert id vol vs fits fit = (fits, AllFit-erase id vs fit)

AllFit-Created :
    (id name : String) (capacity : ℤ) (access : AccessType) (ephemeral : Bool) (old : Volumes)
    (r : Result Volume) (new : Volumes)
    → capacity ≤ℤ max_storage_capacity
    → Created id name capacity access ephemeral old r new
    → AllFit old
    → AllFit new
AllFit-Created id name capacity access ephemeral old (ok vol) new b
      (kept, at_id, named, sized, typed, marked, no_vol, no_snap, placed) fit =
    rw kept (AllFit-insert id vol old (at_id, rw sized b, rw typed placed) fit)
AllFit-Created id name capacity access ephemeral old (err e) new b kept fit = rw kept fit
AllFit-Created id name capacity access ephemeral old panic new b kept fit = rw kept fit
AllFit-Created id name capacity access ephemeral old pending new b kept fit = rw kept fit

AllFit-Deleted :
    (id : String) (old : Volumes) (r : Result (Unit {0})) (new : Volumes)
    → Deleted id old r new
    → AllFit old
    → AllFit new
AllFit-Deleted id old (ok u) new kept fit = rw kept (AllFit-erase id old fit)
AllFit-Deleted id old (err e) new kept fit = rw kept fit
AllFit-Deleted id old panic new kept fit = rw kept fit
AllFit-Deleted id old pending new kept fit = rw kept fit

AllFit-Updated :
    (id : String) (vol : Volume) (old : Volumes) (r : Result (Unit {0})) (new : Volumes)
    → Fits id vol
    → Updated id vol old r new
    → AllFit old
    → AllFit new
AllFit-Updated id vol old (ok u) new fits kept fit = rw kept (AllFit-insert id vol old fits fit)
AllFit-Updated id vol old (err e) new fits kept fit = rw kept fit
AllFit-Updated id vol old panic new fits kept fit = rw kept fit
AllFit-Updated id vol old pending new fits kept fit = rw kept fit

module _ (env : Env) where
  Keeps-delete : (id : String) → Keeps (λ s. AllFit s.volumes) (delete_flexblock_volume env id)
  unfolding delete_flexblock_volume
  Keeps-delete id = Keeps-bind _ _ (Keeps-gets _) λ found. Keeps-maybe _ _ _ (Keeps-pure _) λ vol.
      record {
        at = λ s p.
            AllFit-Deleted id s.volumes _ _ (Deleted-delete_and_store env id vol.vol_access_type s)
              p;
      }

  Keeps-update :
      (id : String) (new : Volume)
      → Fits id new
      → Keeps (λ s. AllFit s.volumes) (update_flexblock_volume env id new)
  unfolding update_flexblock_volume
  Keeps-update id new fits = Keeps-bind _ _ (Keeps-gets _) λ found.
      Keeps-maybe _ _ _ (Keeps-pure _) λ vol. record {
        at = λ s p.
            AllFit-Updated id new s.volumes _ _ fits
              (Updated-resize_and_store env id new vol.vol_access_type s) p;
      }

  abbrev well_formed : Invariant env
  well_formed = record {
    Holds = λ s. AllFit s.volumes;
    Knows = Fits;
    framed = λ s t same _ p. rw same p;
    known = λ s id vol p found. AllFit-lookup id s.volumes vol p found;
    kept_by_create = λ fuel id name capacity access ephemeral b. record {
      at = λ s p.
          AllFit-Created id name capacity access ephemeral s.volumes _ _ b
            (Created-create env id name capacity access ephemeral fuel s) p;
    };
    kept_by_delete = Keeps-delete;
    kept_by_update = λ id vol capacity fits b.
        Keeps-update id (record vol { vol_size = capacity }) (fits.0, b, fits.2);
  }

  -- From a well-formed map of volumes, whatever calls are served and whatever the commands, the server
  -- and the file system answer, the map stays well formed: each volume has the id that it is kept
  -- under, is at most the largest size, and has the path of its id if it is a mounted one.
  pub AllFit-serve :
      (fuel : ℕ) (srv : Servers) (rs : List Rpc) (s : Globals)
      → AllFit s.volumes
      → AllFit (serve env fuel srv rs s).volumes
  AllFit-serve fuel srv rs s fit = serve_induction env well_formed fuel srv rs s fit
