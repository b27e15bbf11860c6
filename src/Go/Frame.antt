-- ===== src/Go/Frame.antt =====
-- Functions that leave the maps of volumes and snapshots alone, and the file that keeps the volumes,
-- whatever they return, with a rule for each way to build a function.
use csi_driver_flexblock.Prelude.{
  none, some, Option, ◌≡◌, refl, ◌∙◌, Bool, true, false, if◌then◌else◌,
}
use csi_driver_flexblock.Env.{last_written, Globals}
use csi_driver_flexblock.Go.{
  optional, Code, Error, Result, ok, err, panic, pending, Go, pure, raise, crash, suspend, gets,
  continue, ◌>>=◌, wrap, attempt, require, maybe,
}

pub record Frame {ℓ} {A : Type ℓ} (m : Go A) : Type ℓ where
  pub volumes : (s : Globals) → (m s).1.volumes ≡ s.volumes
  pub snapshots : (s : Globals) → (m s).1.snapshots ≡ s.snapshots
  pub written : (s : Globals) → last_written (m s).1.calls ≡ last_written s.calls

module _ {ℓ} {A : Type ℓ} where
  pub Frame-pure : (a : A) → Frame (pure a)
  unfolding pure
  Frame-pure a = record { volumes = λ s. refl; snapshots = λ s. refl; written = λ s. refl }

  pub Frame-raise : (e : Error) → Frame (raise {A = A} e)
  unfolding raise
  Frame-raise e = record { volumes = λ s. refl; snapshots = λ s. refl; written = λ s. refl }

  pub Frame-crash : Frame (crash {A = A})
  unfolding crash
  Frame-crash = record { volumes = λ s. refl; snapshots = λ s. refl; written = λ s. refl }

  pub Frame-suspend : Frame (suspend {A = A})
  unfolding suspend
  Frame-suspend = record { volumes = λ s. refl; snapshots = λ s. refl; written = λ s. refl }

  pub Frame-gets : (f : Globals → A) → Frame (gets f)
  unfolding gets
  Frame-gets f = record { volumes = λ s. refl; snapshots = λ s. refl; written = λ s. refl }

  pub Frame-if : (b : Bool) (m n : Go A) → Frame m → Frame n → Frame (if b then m else n)
  Frame-if true m n km kn = km
  Frame-if false m n km kn = kn

  pub Frame-wrap : (c : Code) (m : Go A) → Frame m → Frame (wrap c m)
  unfolding wrap
  Frame-wrap c m f = record { volumes = f.volumes; snapshots = f.snapshots; written = f.written }

pub Frame-attempt : (m : Go (Unit {0})) → Frame m → Frame (attempt m)
unfolding attempt
Frame-attempt m f = record { volumes = f.volumes; snapshots = f.snapshots; written = f.written }

module _ {ℓ} {A : Type ℓ} where
  pub Frame-optional : (m : Go A) → Frame m → Frame (optional m)
  unfolding optional
  Frame-optional m f = record { volumes = f.volumes; snapshots = f.snapshots; written = f.written }

pub Frame-require : (b : Bool) (e : Error) → Frame (require b e)
unfolding require
Frame-require true e = Frame-pure tt
Frame-require false e = Frame-raise e

module _ {ℓ κ} {A : Type ℓ} {B : Type κ} where
  Frame-continue_volumes :
      (r : Result A) (f : A → Go B)
      → ((a : A) → Frame (f a))
      → (s : Globals) → (continue r f s).1.volumes ≡ s.volumes
  Frame-continue_volumes (ok a) f kf s = (kf a).volumes s
  Frame-continue_volumes (err e) f kf s = refl
  Frame-continue_volumes panic f kf s = refl
  Frame-continue_volumes pending f kf s = refl

  Frame-continue_snapshots :
      (r : Result A) (f : A → Go B)
      → ((a : A) → Frame (f a))
      → (s : Globals) → (continue r f s).1.snapshots ≡ s.snapshots
  Frame-continue_snapshots (ok a) f kf s = (kf a).snapshots s
  Frame-continue_snapshots (err e) f kf s = refl
  Frame-continue_snapshots panic f kf s = refl
  Frame-continue_snapshots pending f kf s = refl

  Frame-continue_written :
      (r : Result A) (f : A → Go B)
      → ((a : A) → Frame (f a))
      → (s : Globals) → last_written (continue r f s).1.calls ≡ last_written s.calls
  Frame-continue_written (ok a) f kf s = (kf a).written s
  Frame-continue_written (err e) f kf s = refl
  Frame-continue_written panic f kf s = refl
  Frame-continue_written pending f kf s = refl

  pub Frame-bind : (m : Go A) (f : A → Go B) → Frame m → ((a : A) → Frame (f a)) → Frame (m >>= f)
  unfolding ◌>>=◌
  Frame-bind m f km kf = record {
    volumes = λ s. let (r, s') = m s in Frame-continue_volumes r f kf s' ∙ km.volumes s;
    snapshots = λ s. let (r, s') = m s in Frame-continue_snapshots r f kf s' ∙ km.snapshots s;
    written = λ s. let (r, s') = m s in Frame-continue_written r f kf s' ∙ km.written s;
  }

  pub Frame-maybe :
      (o : Option A) (m : Go B) (f : A → Go B)
      → Frame m
      → ((a : A) → Frame (f a))
      → Frame (maybe o m f)
  unfolding maybe
  Frame-maybe none m f km kf = km
  Frame-maybe (some a) m f km kf = kf a

pub ruleset frame_rules = (
  Frame-pure, Frame-raise, Frame-crash, Frame-suspend, Frame-gets, Frame-if, Frame-wrap,
  Frame-attempt, Frame-require, Frame-bind, Frame-maybe, Frame-optional,
)
