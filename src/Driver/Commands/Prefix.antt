-- ===== src/Driver/Commands/Prefix.antt =====
-- A target whose name begins with the name of another.
use csi_driver_flexblock.Driver.Laws.{Created-create, Created}
use csi_driver_flexblock.Driver.Commands.Whole.{created_in_local_mode, IsLocal}
use csi_driver_flexblock.Volume.{Volume, Volumes, AccessType}
use csi_driver_flexblock.Go.{pending, panic, err, Result, ok}
use csi_driver_flexblock.Driver.Create.{create_flexblock_volume}
use csi_driver_flexblock.Driver.Commands.{show_command, create_command}
use csi_driver_flexblock.Prelude.Text.{◌<>◌, contains}
use csi_driver_flexblock.Prelude.Int.{ℤ}
use csi_driver_flexblock.Env.{Output, Call, Globals, Env}
use csi_driver_flexblock.Driver.Disk.{local_iqn}
use csi_driver_flexblock.Prelude.{
  false, Bool, ℕ, false≢true, subst, ◌∙◌, sym, ap, true, ◌≡◌, String, ◌∷◌, refl,
}
use csi_driver_flexblock.Prelude.Text.Laws.{append_assoc, contains-inside}

contains-longer :
    (a id rest b : String) → contains (a <> local_iqn (id <> rest) <> b) (local_iqn id) ≡ true
unfolding local_iqn
contains-longer a id rest b =
    subst (λ t. contains (a <> t) (local_iqn id) ≡ true) (sym (longer id rest b))
      (contains-inside a (local_iqn id) (rest <> b))
  where
    longer : (id rest b : String) → local_iqn (id <> rest) <> b ≡ local_iqn id <> rest <> b
    longer id rest b =
        ap (λ t. t <> b) (sym (append_assoc "iqn.2017-10-30.kx.flexcsi-" id rest))
        ∙ append_assoc (local_iqn id) rest b

abbrev pub is_ok {ℓ} : {A : Type ℓ} → Result A → Bool
is_ok (ok a) = true
is_ok _ = false

module _ (env : Env) (fuel : ℕ) (id rest a b name : String) (capacity : ℤ) (access : AccessType)
    (ephemeral : Bool) where
  unchanged :
      (old new : Volumes) (r : Result Volume)
      → Created id name capacity access ephemeral old r new
      → ((vol : Volume) → r ≡ ok vol → ⊥)
      → (new ≡ old) × (is_ok r ≡ false)
  unchanged old new (ok vol) kept never = absurd (never vol refl)
  unchanged old new (err e) kept never = (kept, refl)
  unchanged old new panic kept never = (kept, refl)
  unchanged old new pending kept never = (kept, refl)

  -- While a target is shown whose volume has an id that begins with another, createFlexblockVolume of that other id
  -- does not succeed in local mode, and leaves the map as it was.
  pub create-blocked :
      (s : Globals)
      → IsLocal s
      → (env.run_answer (Call.run (create_command id capacity) ∷ s.calls) show_command).text
        ≡ a <> local_iqn (id <> rest) <> b
      → ((create_flexblock_volume env fuel id name capacity access ephemeral s).1.volumes
          ≡ s.volumes)
        × (is_ok (create_flexblock_volume env fuel id name capacity access ephemeral s).0 ≡ false)
  create-blocked s here shown =
      unchanged s.volumes _ _ (Created-create env id name capacity access ephemeral fuel s)
        λ vol made.
          let m =
            (created_in_local_mode env id capacity access fuel name ephemeral s vol here
              made).made in
          false≢true (
            sym m.is_new
            ∙ ap (λ (o : Output). contains o.text (local_iqn id)) m.shown_is
            ∙ ap (λ text. contains text (local_iqn id)) shown
            ∙ contains-longer a id rest b)
