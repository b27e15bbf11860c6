-- ===== src/Node/Published.antt =====
-- What NodePublishVolume has mounted where it succeeds.
pub mod Succeeds
use csi_driver_flexblock.Store.{get_volume_by_id}
use csi_driver_flexblock.Node.{NodeServer}
use csi_driver_flexblock.Node.Frame.{Frame-publish_volume}
use csi_driver_flexblock.Go.{not_found, wrap, ok, Error, raise, pure, require, Go, ◌>>=◌}
use csi_driver_flexblock.Paths.{get_volume_path}
use csi_driver_flexblock.Go.Inversion.{err_ne_ok, ok_inj}
use csi_driver_flexblock.Volume.{lookup, is_block, is_mount, Volume}
use csi_driver_flexblock.Driver.Disk.{checked, local_disk}
use csi_driver_flexblock.Go.Ends.{
  Ends-require, Ends-Anything, Ends-if, Anything, Ends-bind, Ends-raise, Ends-pure, Ends-maybe,
  Always, Ends,
}
use csi_driver_flexblock.Node.Publish.{
  publish_checked, node_publish_volume, publish_volume, publish_block, publish_mount,
  bind_directory, real_error, ensure_directory, mount_device, bind_options, no_error,
}
use csi_driver_flexblock.Csi.{no_access, block_volume, mount_volume, NodePublishRequest, Access}
use csi_driver_flexblock.Env.{Call, OsError, Globals, History, Env}
use csi_driver_flexblock.Prelude.{
  inr, inl, Option-cases, sym, some_inj, subst, ℕ, ◌||◌, not_inv, some, ap, ◌∙◌, is_some, true,
  none, false, Option, ◌≡◌, Bool, List, String, ◌∷◌, [], refl,
}
use csi_driver_flexblock.Sys.{mount, is_not_mount_point, run}

require_facts :
    (b : Bool) (e : Error) (s : Globals) (u : Unit {0})
    → (require b e s).0 ≡ ok u
    → (b ≡ true) × ((require b e s).1 ≡ s)
unfolding require pure raise
require_facts true e s u h = (refl, refl)
require_facts false e s u h = cc

neither : (a b : Bool) → (a || b) ≡ false → (a ≡ false) × (b ≡ false)
neither true b h = cc
neither false b h = (refl, h)

module _ (env : Env) where
  -- the target was a mount point already
  abbrev WasMounted : String → String → History → Type 0
  WasMounted target p h = (p ≡ target) × (env.is_not_mount_point_answer h target ≡ (false, none))

  abbrev device_mount : String → String → List String
  device_mount id target = "mount" ∷ "-t" ∷ "ext4" ∷ local_disk id ∷ target ∷ []

  -- The last call has found the target of a mount volume mounted, has bound the volume's directory to it, or has mounted
  -- the volume's device there.
  abbrev pub IsMounted : NodePublishRequest → History → Type 0
  IsMounted req (Call.is_mount_point p ∷ h) = WasMounted req.target_path p h
  IsMounted req (Call.mount a b o ∷ h) =
      (a ≡ get_volume_path req.volume_id)
      × (b ≡ req.target_path)
      × (o ≡ bind_options req.readonly)
      × (env.mount_answer h a b o ≡ none)
  IsMounted req (Call.run c ∷ h) =
      (c ≡ device_mount req.volume_id req.target_path) × ((env.run_answer h c).failed ≡ false)
  IsMounted req _ = ⊥

  -- The last call has found the target of a block volume mounted, or has bound the volume's device to it.
  abbrev pub IsBound : String → NodePublishRequest → History → Type 0
  IsBound path req (Call.is_mount_point p ∷ h) = WasMounted req.target_path p h
  IsBound path req (Call.mount a b o ∷ h) =
      (a ≡ path) × (b ≡ req.target_path) × (o ≡ "bind" ∷ []) × (env.mount_answer h a b o ≡ none)
  IsBound path req _ = ⊥

  abbrev pub Published : Access → Volume → NodePublishRequest → History → Type 0
  Published mount_volume vol req h = is_mount vol.vol_access_type ≡ true × IsMounted req h
  Published block_volume vol req h =
      is_block vol.vol_access_type ≡ true × IsBound vol.vol_path req h
  Published no_access vol req h = ⊥

  -- what a test of a path has answered
  abbrev Tested : String → Bool × Option OsError → Globals → Type 0
  Tested p st s =
      (h : History) × (s.calls ≡ Call.is_mount_point p ∷ h)
      × (env.is_not_mount_point_answer h p ≡ st)

  Ends-test : (p : String) → Ends Always (Tested p) (is_not_mount_point env p)
  unfolding is_not_mount_point
  Ends-test p = record { at = λ s u st e. (s.calls, refl, ok_inj e) }

  Ends-no_error :
      {P : Globals → Type 0} (e : Option OsError) → Ends P (λ u s. P s × (e ≡ none)) (no_error e)
  unfolding no_error
  Ends-no_error e = Ends-maybe e _ _ (λ h. Ends-pure tt λ s p. (p, h)) λ x _. Ends-raise _

  -- the test of a target that has said that it is mounted
  was_mounted :
      (target : String) (st : Bool × Option OsError) (s : Globals)
      → st.0 ≡ false
      → is_some st.1 ≡ false
      → Tested target st s
      → (h : History) × (s.calls ≡ Call.is_mount_point target ∷ h) × WasMounted target target h
  was_mounted target (b, none) s off no_err (h, calls, answer) =
      (h, calls, (refl, answer ∙ ap (λ (x : Bool). (x, none)) off))
  was_mounted target (b, some e) s off no_err tested = cc

  module _ (req : NodePublishRequest) where
    found-IsMounted :
        (s : Globals)
        → (h : History) × (s.calls ≡ Call.is_mount_point req.target_path ∷ h)
          × WasMounted req.target_path req.target_path h
        → IsMounted req s.calls
    found-IsMounted s (h, calls, was) = rw calls was

    Ends-ensure_directory :
        Ends Always
          (λ (unmounted : Bool) s. unmounted ≡ false → IsMounted req s.calls)
          (ensure_directory env req.target_path)
    unfolding ensure_directory
    Ends-ensure_directory = Ends-bind _ _ _ (Ends-test req.target_path) λ st.
        Ends-bind _ _ _ (Ends-no_error (real_error st.1)) λ _.
          Ends-if (is_some st.1) _ _
            (λ _.
              Ends-bind Anything _ _ (Ends-Anything _)
                λ made. Ends-bind Anything _ _ (Ends-Anything _) λ _. Ends-pure true λ s p e. cc)
            λ no_err.
              Ends-pure st.0
                λ s p off. found-IsMounted s (was_mounted req.target_path st s off no_err p.0)

    -- a command that has not failed is the last call
    Ends-checked :
        {P : Globals → Type 0} (c : List String)
        → Ends P
            (λ u s.
              (h : History) × (s.calls ≡ Call.run c ∷ h) × ((env.run_answer h c).failed ≡ false))
            (checked env c)
    unfolding checked run ◌>>=◌
    Ends-checked c = record {
      at = λ s p u e.
          let r = require_facts _ _ _ u e in (s.calls, ap (λ t. t.calls) r.1, not_inv _ r.0);
    }

    Ends-mount_device :
        {P : Globals → Type 0}
        → Ends P (λ u s. IsMounted req s.calls) (mount_device env req.volume_id req.target_path)
    unfolding mount_device
    Ends-mount_device = Ends-bind Anything _ _ (Ends-Anything _) λ _.
        Ends-bind Anything _ _ (Ends-Anything _) λ _. Ends-bind Anything _ _ (Ends-Anything _) λ _.
          Ends-bind Anything _ _ (Ends-Anything _) λ _. record {
            at = λ s p u e.
                let (h, calls, fine) =
                  (Ends-checked {P = Always} (device_mount req.volume_id req.target_path)).at s tt u
                    e in
                rw calls (refl, fine);
          }

    -- what an attempt to mount has answered
    abbrev Tried : String → List String → Option OsError → Globals → Type 0
    Tried path options o s =
        (h : History) × (s.calls ≡ Call.mount path req.target_path options ∷ h)
        × (env.mount_answer h path req.target_path options ≡ o)

    Ends-mount :
        (path : String) (options : List String) {P : Globals → Type 0}
        → Ends P (Tried path options) (mount env path req.target_path options)
    unfolding mount
    Ends-mount path options = record { at = λ s u o e. (s.calls, refl, ok_inj e) }

    Ends-bind_directory :
        (vol : Volume) {P : Globals → Type 0}
        → Ends P
            (λ u s. IsMounted req s.calls)
            (bind_directory env vol (get_volume_path req.volume_id) req.target_path req.readonly)
    unfolding bind_directory
    Ends-bind_directory vol = Ends-bind _ _ _ (Ends-mount _ _) λ o.
        Ends-maybe o _ _
          (λ fine. Ends-pure tt λ s (h, calls, answer). rw calls (refl, refl, refl, answer ∙ fine))
          λ e _.
            Ends-if vol.ephemeral _ _
              (λ _. Ends-bind Anything _ _ (Ends-Anything _) λ _. Ends-raise _) λ _. Ends-raise _

    and_fits :
        (vol : Volume) {P : Globals → Type 0} {m : Go (Unit {0})}
        → is_mount vol.vol_access_type ≡ true
        → Ends P (λ u s. IsMounted req s.calls) m
        → Ends P (λ u s. Published mount_volume vol req s.calls) m
    and_fits vol fits l = record { at = λ s p u e. (fits, l.at s p u e) }

    pub Ends-publish_mount :
        (vol : Volume)
        → Ends Always (λ u s. Published mount_volume vol req s.calls) (publish_mount env vol req)
    unfolding publish_mount
    Ends-publish_mount vol = Ends-require _ _ _ λ fits.
        Ends-bind _ _ _ Ends-ensure_directory λ unmounted.
          Ends-if unmounted _ _
            (λ _. Ends-bind Anything _ _ (Ends-Anything _) λ state.
              and_fits vol fits
                (Ends-if state.0 _ _ (λ _. Ends-mount_device) λ _. Ends-bind_directory vol))
            λ already. Ends-pure tt λ s p. (fits, p already)

    pub Ends-publish_block :
        (vol : Volume)
        → Ends Always
            (λ u s. Published block_volume vol req s.calls)
            (publish_block env vol req.target_path)
    unfolding publish_block
    Ends-publish_block vol = Ends-require _ _ _ λ fits.
        Ends-bind Anything _ _ (Ends-Anything _) λ _.
          Ends-bind _ _ _ (Ends-test req.target_path) λ st.
            Ends-bind _ _ _ (Ends-no_error (real_error st.1)) λ _.
              Ends-if (st.0 || is_some st.1) _ _
                (λ _. Ends-bind _ _ _ (Ends-mount vol.vol_path ("bind" ∷ [])) λ o. record {
                  at = λ s p u e.
                      let ((h, calls, answer), fine) =
                        (Ends-no_error {P = Tried vol.vol_path ("bind" ∷ []) o} o).at s p u e in
                      (fits, rw calls (refl, refl, refl, answer ∙ fine));
                })
                λ both. Ends-pure tt λ s p.
                  let (off, no_err) = neither st.0 (is_some st.1) both in
                  let (h, calls, was) = was_mounted req.target_path st s off no_err p.0 in
                  (fits, rw calls was)
