-- ===== src/Go/Keeps.antt =====
-- Invariants of the driver's state that a function keeps, whatever it returns, with a rule for each way
-- to build a function.
use csi_driver_flexblock.Go.Frame.{Frame}
use csi_driver_flexblock.Go.{
  pending, panic, err, ok, ◌>>◌, Code, continue, handled, Error, pure, Result, Go, crash, raise,
  attempt, wrap, ◌>>=◌, catch, optional, maybe, gets, require,
}
use csi_driver_flexblock.Env.{last_written, Globals}
use csi_driver_flexblock.Prelude.{if◌then◌else◌, false, true, Bool, ◌≡◌, refl, Option, none, some}

pub record Keeps {ℓ} {A : Type ℓ} (P : Globals → Type 0) (m : Go A) : Type ℓ where
  pub at : (s : Globals) → P s → P (m s).1

-- A predicate that only looks at the map of volumes and at the file that keeps it.
abbrev pub IsFramed : (Globals → Type 0) → Type 0
IsFramed P =
    (s t : Globals)
    → t.volumes ≡ s.volumes
    → last_written t.calls ≡ last_written s.calls
    → P s
    → P t

module _ {ℓ} {A : Type ℓ} {P : Globals → Type 0} where
  pub Keeps-pure : (a : A) → Keeps P (pure a)
  unfolding pure
  Keeps-pure a = record { at = λ s holds. holds }

  pub Keeps-raise : (e : Error) → Keeps P (raise {A = A} e)
  unfolding raise
  Keeps-raise e = record { at = λ s holds. holds }

  pub Keeps-crash : Keeps P (crash {A = A})
  unfolding crash
  Keeps-crash = record { at = λ s holds. holds }

  pub Keeps-gets : (f : Globals → A) → Keeps P (gets f)
  unfolding gets
  Keeps-gets f = record { at = λ s holds. holds }

  pub Keeps-if :
      (test : Bool) (first second : Go A)
      → (test ≡ true → Keeps P first)
      → (test ≡ false → Keeps P second)
      → Keeps P (if test then first else second)
  Keeps-if true first second k l = k refl
  Keeps-if false first second k l = l refl

  pub Keeps-wrap : (c : Code) (m : Go A) → Keeps P m → Keeps P (wrap c m)
  unfolding wrap
  Keeps-wrap c m k = record { at = k.at }

  pub Keeps-optional : (m : Go A) → Keeps P m → Keeps P (optional m)
  unfolding optional
  Keeps-optional m k = record { at = k.at }

  Keeps-handled :
      (h : Error → Go A)
      → ((e : Error) → Keeps P (h e))
      → (r : Result A) (s : Globals) → P s
      → P (handled h r s).1
  Keeps-handled h kh (ok a) s p = p
  Keeps-handled h kh (err e) s p = (kh e).at s p
  Keeps-handled h kh panic s p = p
  Keeps-handled h kh pending s p = p

  pub Keeps-catch :
      (h : Error → Go A) (m : Go A)
      → ((e : Error) → Keeps P (h e))
      → Keeps P m
      → Keeps P (catch h m)
  unfolding catch
  Keeps-catch h m kh k = record {
    at = λ s p. let (r, s') = m s in Keeps-handled h kh r s' (k.at s p);
  }

  pub Keeps-framed : IsFramed P → (m : Go A) → Frame m → Keeps P m
  Keeps-framed framed m f = record { at = λ s p. framed s (m s).1 (f.volumes s) (f.written s) p }

module _ {P : Globals → Type 0} where
  pub Keeps-attempt : (m : Go (Unit {0})) → Keeps P m → Keeps P (attempt m)
  unfolding attempt
  Keeps-attempt m k = record { at = k.at }

  pub Keeps-require : (b : Bool) (e : Error) → Keeps P (require b e)
  unfolding require
  Keeps-require true e = Keeps-pure tt
  Keeps-require false e = Keeps-raise e

module _ {ℓ κ} {A : Type ℓ} {B : Type κ} {P : Globals → Type 0} where
  pub Keeps-continue :
      (r : Result A) (f : A → Go B)
      → ((a : A) → Keeps P (f a))
      → (s : Globals) → P s
      → P (continue r f s).1
  Keeps-continue (ok a) f kf s p = (kf a).at s p
  Keeps-continue (err e) f kf s p = p
  Keeps-continue panic f kf s p = p
  Keeps-continue pending f kf s p = p

  pub Keeps-bind :
      (m : Go A) (f : A → Go B) → Keeps P m → ((a : A) → Keeps P (f a)) → Keeps P (m >>= f)
  unfolding ◌>>=◌
  Keeps-bind m f km kf = record {
    at = λ s p. let (r, s') = m s in Keeps-continue r f kf s' (km.at s p);
  }

  pub Keeps-maybe :
      (o : Option A) (m : Go B) (f : A → Go B)
      → Keeps P m
      → ((a : A) → Keeps P (f a))
      → Keeps P (maybe o m f)
  unfolding maybe
  Keeps-maybe none m f km kf = km
  Keeps-maybe (some a) m f km kf = kf a

-- Behind a test that returns an error, the rest may use that it holds.
pub Keeps-require_bind {ℓ} :
    {A : Type ℓ} {P : Globals → Type 0} (b : Bool) (e : Error) (k : Go A)
    → (b ≡ true → Keeps P k)
    → Keeps P (require b e >> k)
unfolding require ◌>>=◌ pure raise
Keeps-require_bind true e k kk = record { at = λ s p. (kk refl).at s p }
Keeps-require_bind false e k kk = record { at = λ s p. p }

pub ruleset keeps_rules = (
  Keeps-pure, Keeps-raise, Keeps-crash, Keeps-gets, Keeps-if, Keeps-wrap, Keeps-optional,
  Keeps-catch, Keeps-attempt, Keeps-require, Keeps-bind, Keeps-maybe,
)
