-- ===== src/Go/Ends.antt =====
-- What is so where a function that was started in a known state has returned no error, with a rule for each way to build
-- a function.
use csi_driver_flexblock.Go.Inversion.{ok_inj}
use csi_driver_flexblock.Go.{
  pending, panic, err, continue, ◌>>◌, ok, Error, Go, ◌>>=◌, require, raise, Result, maybe, pure,
}
use csi_driver_flexblock.Env.{Globals}
use csi_driver_flexblock.Prelude.{
  if◌then◌else◌, false, some, true, none, subst, ◌≡◌, Option, Bool, refl,
}

pub record Ends {ℓ} {A : Type ℓ} (P : Globals → Type 0) (Q : A → Globals → Type 0) (m : Go A)
    : Type ℓ where
  pub at : (s : Globals) → P s → (a : A) → (m s).0 ≡ ok a → Q a (m s).1

module _ {ℓ} {A : Type ℓ} {P : Globals → Type 0} {Q : A → Globals → Type 0} where
  pub Ends-pure : (a : A) → ((s : Globals) → P s → Q a s) → Ends P Q (pure a)
  unfolding pure
  Ends-pure a q = record { at = λ s p b e. subst (λ c. Q c s) (ok_inj e) (q s p) }

  pub Ends-raise : (e : Error) → Ends P Q (raise e)
  unfolding raise
  Ends-raise e = record { at = λ s p b r. cc }

  pub Ends-if :
      (test : Bool) (m n : Go A)
      → (test ≡ true → Ends P Q m)
      → (test ≡ false → Ends P Q n)
      → Ends P Q (if test then m else n)
  Ends-if true m n lm ln = lm refl
  Ends-if false m n lm ln = ln refl

  pub Ends-require :
      (b : Bool) (e : Error) (k : Go A) → (b ≡ true → Ends P Q k) → Ends P Q (require b e >> k)
  unfolding require ◌>>=◌ pure raise
  Ends-require true e k lk = record { at = λ s p a r. (lk refl).at s p a r }
  Ends-require false e k lk = record { at = λ s p a r. cc }

module _ {ℓ κ} {A : Type ℓ} {B : Type κ} {P : Globals → Type 0} {Q : B → Globals → Type 0} where
  pub Ends-maybe :
      (o : Option A) (m : Go B) (f : A → Go B)
      → (o ≡ none → Ends P Q m)
      → ((a : A) → o ≡ some a → Ends P Q (f a))
      → Ends P Q (maybe o m f)
  unfolding maybe
  Ends-maybe none m f lm lf = lm refl
  Ends-maybe (some a) m f lm lf = lf a refl

module _ {ℓ κ} {A : Type ℓ} {B : Type κ} {Q : B → Globals → Type 0} where
  Ends-continue :
      (R : A → Globals → Type 0) (r : Result A) (f : A → Go B) (s : Globals)
      → ((a : A) → r ≡ ok a → R a s)
      → ((a : A) → Ends (R a) Q (f a))
      → (b : B) → (continue r f s).0 ≡ ok b
      → Q b (continue r f s).1
  Ends-continue R (ok a) f s given lf b h = (lf a).at s (given a refl) b h
  Ends-continue R (err e) f s given lf b h = cc
  Ends-continue R panic f s given lf b h = cc
  Ends-continue R pending f s given lf b h = cc

  pub Ends-bind :
      {P : Globals → Type 0} (R : A → Globals → Type 0) (m : Go A) (f : A → Go B)
      → Ends P R m
      → ((a : A) → Ends (R a) Q (f a))
      → Ends P Q (m >>= f)
  unfolding ◌>>=◌
  Ends-bind R m f lm lf = record {
    at = λ s p b e. Ends-continue R (m s).0 f (m s).1 (lm.at s p) lf b e;
  }

-- nothing known
abbrev pub Anything {ℓ} : {A : Type ℓ} → A → Globals → Type 0
Anything a s = Unit

abbrev pub Always : Globals → Type 0
Always s = Unit

pub Ends-Anything {ℓ} : {A : Type ℓ} {P : Globals → Type 0} (m : Go A) → Ends P Anything m
Ends-Anything m = record { at = λ s p a e. tt }
