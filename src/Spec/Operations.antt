-- ===== src/Spec/Operations.antt =====
-- The driver's three operations, as what they may leave in the map of volumes.
use csi_driver_flexblock.Go.Frame.{Frame-pure, Frame-gets}
use csi_driver_flexblock.Driver.Create.{create_flexblock_volume}
use csi_driver_flexblock.Spec.View.{info}
use csi_driver_flexblock.Go.Leads.{Leads-Frame, Leads-maybe, Leads-bind, Leads}
use csi_driver_flexblock.Driver.Laws.{
  Deleted-delete_and_store, Updated-resize_and_store, Created-create, Created, Deleted, Updated,
}
use csi_driver_flexblock.Driver.Delete.{delete_and_store, delete_flexblock_volume}
use csi_driver_flexblock.Prelude.Int.{ℤ}
use csi_driver_flexblock.Driver.Update.{resize_and_store, update_flexblock_volume}
use csi_driver_flexblock.Go.{pending, panic, err, ok, Result}
use csi_driver_flexblock.Volume.{AccessType, insert, erase, Volume, Volumes}
use csi_driver_flexblock.Env.{Env}
use csi_driver_flexblock.Prelude.{subst, ◌≡◌, ℕ, Bool, String}

module _ (env : Env) (old : Volumes) (Q : Volumes → Type 0) (same : Q old) where
  module _ (id name : String) (capacity : ℤ) (access : AccessType) (ephemeral : Bool) where
    -- what is known of a volume that was made
    abbrev pub IsNew : Volume → Type 0
    IsNew vol =
        info vol ≡ record { name = name; size = capacity; access = access; ephemeral = ephemeral }

    after_Created :
        (r : Result Volume) (new : Volumes)
        → ((vol : Volume) → IsNew vol → Q (insert id vol old))
        → Created id name capacity access ephemeral old r new
        → Q new
    after_Created (ok vol) new q (kept, _, named, sized, typed, marked, _, _, _) = rw kept (
        q vol
          (λ i. record { name = named i; size = sized i; access = typed i; ephemeral = marked i }))
    after_Created (err e) new q kept = rw kept same
    after_Created panic new q kept = rw kept same
    after_Created pending new q kept = rw kept same

    pub Leads-create :
        (fuel : ℕ)
        → ((vol : Volume) → IsNew vol → Q (insert id vol old))
        → Leads old Q (create_flexblock_volume env fuel id name capacity access ephemeral)
    Leads-create fuel q = record {
      at = λ s h. after_Created _ _ q (
          subst
            (λ vs.
              Created id name capacity access ephemeral vs
                (create_flexblock_volume env fuel id name capacity access ephemeral s).0
                (create_flexblock_volume env fuel id name capacity access ephemeral s).1.volumes)
            h (Created-create env id name capacity access ephemeral fuel s));
    }

  after_Deleted :
      (id : String) (r : Result (Unit {0})) (new : Volumes)
      → Q (erase id old)
      → Deleted id old r new
      → Q new
  after_Deleted id (ok u) new q kept = rw kept q
  after_Deleted id (err e) new q kept = rw kept same
  after_Deleted id panic new q kept = rw kept same
  after_Deleted id pending new q kept = rw kept same

  pub Leads-delete : (id : String) → Q (erase id old) → Leads old Q (delete_flexblock_volume env id)
  unfolding delete_flexblock_volume
  Leads-delete id q = Leads-bind same _ _ (Frame-gets _) λ found.
      Leads-maybe found _ _ (Leads-Frame same _ (Frame-pure _)) λ vol _. record {
        at = λ s h. after_Deleted id _ _ q (
            subst
              (λ vs.
                Deleted id vs (delete_and_store env id vol.vol_access_type s).0
                  (delete_and_store env id vol.vol_access_type s).1.volumes)
              h (Deleted-delete_and_store env id vol.vol_access_type s));
      }

  after_Updated :
      (id : String) (vol : Volume) (r : Result (Unit {0})) (new : Volumes)
      → Q (insert id vol old)
      → Updated id vol old r new
      → Q new
  after_Updated id vol (ok u) new q kept = rw kept q
  after_Updated id vol (err e) new q kept = rw kept same
  after_Updated id vol panic new q kept = rw kept same
  after_Updated id vol pending new q kept = rw kept same

  pub Leads-update :
      (id : String) (vol : Volume)
      → Q (insert id vol old)
      → Leads old Q (update_flexblock_volume env id vol)
  unfolding update_flexblock_volume
  Leads-update id vol q = Leads-bind same _ _ (Frame-gets _) λ found.
      Leads-maybe found _ _ (Leads-Frame same _ (Frame-pure _)) λ w _. record {
        at = λ s h. after_Updated id vol _ _ q (
            subst
              (λ vs.
                Updated id vol vs (resize_and_store env id vol w.vol_access_type s).0
                  (resize_and_store env id vol w.vol_access_type s).1.volumes)
              h (Updated-resize_and_store env id vol w.vol_access_type s));
      }
