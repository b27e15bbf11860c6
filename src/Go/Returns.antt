-- ===== src/Go/Returns.antt =====
-- A function that returns a value, and no error, from every state, with a rule for each way to build a function.
use csi_driver_flexblock.Driver.Disk.{checked}
use csi_driver_flexblock.Sys.{run}
use csi_driver_flexblock.Sys.{read_link, read_dir, send}
use csi_driver_flexblock.Env.{History, Request, Globals, Env}
use csi_driver_flexblock.Go.{
  Error, require, status, ok, recode, Code, wrap, maybe, Go, pure, gets, ◌>>=◌,
}
use csi_driver_flexblock.Prelude.{
  false, true, none, List, some, ◌≡◌, ◌∙◌, Option, ap, if◌then◌else◌, Bool, String, refl,
}

pub record Returns {ℓ} {A : Type ℓ} (m : Go A) : Type ℓ where
  pub at : (s : Globals) → (a : A) × ((m s).0 ≡ ok a)

module _ {ℓ} {A : Type ℓ} where
  pub Returns-pure : (a : A) → Returns (pure a)
  unfolding pure
  Returns-pure a = record { at = λ s. (a, refl) }

  pub Returns-gets : (f : Globals → A) → Returns (gets f)
  unfolding gets
  Returns-gets f = record { at = λ s. (f s, refl) }

  pub Returns-if : (b : Bool) (m n : Go A) → Returns m → Returns n → Returns (if b then m else n)
  Returns-if true m n rm rn = rm
  Returns-if false m n rm rn = rn

  pub Returns-then : (b : Bool) (m n : Go A) → b ≡ true → Returns m → Returns (if b then m else n)
  Returns-then true m n h rm = rm
  Returns-then false m n h rm = cc

  pub Returns-wrap : (c : Code) (m : Go A) → Returns m → Returns (wrap c m)
  unfolding wrap
  Returns-wrap c m r = record {
    at = λ s. let (a, e) = r.at s in (a, ap (recode (λ _. status c)) e);
  }

pub Returns-require : (b : Bool) (e : Error) → b ≡ true → Returns (require b e)
unfolding require
Returns-require true e h = Returns-pure tt
Returns-require false e h = cc

module _ {ℓ κ} {A : Type ℓ} {B : Type κ} where
  -- what follows a value
  pub bind-ok :
      (m : Go A) (f : A → Go B) (s : Globals) (a : A) → (m s).0 ≡ ok a → (m >>= f) s ≡ f a (m s).1
  unfolding ◌>>=◌
  bind-ok m f s a e = rw e refl

  pub Returns-bind :
      (m : Go A) (f : A → Go B) → Returns m → ((a : A) → Returns (f a)) → Returns (m >>= f)
  Returns-bind m f rm rf = record {
    at = λ s.
        let (a, e) = rm.at s in
        let (b, g) = (rf a).at (m s).1 in (b, ap (λ p. p.0) (bind-ok m f s a e) ∙ g);
  }

  pub Returns-maybe :
      (o : Option A) (m : Go B) (f : A → Go B)
      → Returns m
      → ((a : A) → Returns (f a))
      → Returns (maybe o m f)
  unfolding maybe
  Returns-maybe none m f rm rf = rm
  Returns-maybe (some a) m f rm rf = rf a

module _ (env : Env) where
  pub Returns-run : (args : List String) → Returns (run env args)
  unfolding run
  Returns-run args = record { at = λ s. (_, refl) }

  pub Returns-send : (r : Request) → Returns (send env r)
  unfolding send
  Returns-send r = record { at = λ s. (_, refl) }

  pub Returns-read_dir : (path : String) → Returns (read_dir env path)
  unfolding read_dir
  Returns-read_dir path = record { at = λ s. (_, refl) }

  pub Returns-read_link : (path : String) → Returns (read_link env path)
  unfolding read_link
  Returns-read_link path = record { at = λ s. (_, refl) }

  pub Returns-checked :
      (args : List String)
      → ((h : History) → (env.run_answer h args).failed ≡ false)
      → Returns (checked env args)
  unfolding checked run require pure ◌>>=◌
  Returns-checked args works = record { at = λ s. (tt, rw (works s.calls) refl) }

pub ruleset returns_rules = (
  Returns-pure, Returns-gets, Returns-if, Returns-wrap, Returns-bind, Returns-maybe, Returns-run,
  Returns-send, Returns-read_dir, Returns-read_link,
)
