-- ===== src/Go/Inversion.antt =====
-- What a successful run of a function says of its parts.
use csi_driver_flexblock.Env.{Globals}
use csi_driver_flexblock.Go.{
  continue, ◌>>◌, status, pure, Go, recode, ok, raise, err, Result, Error, require, ◌>>=◌, Code,
  maybe, pending, panic, wrap,
}
use csi_driver_flexblock.Prelude.{ap, ◌≡◌, refl, Bool, true, false, Option, none, some}

pub err_ne_ok {ℓ} : {A : Type ℓ} {e : Error} {a : A} → err e ≡ ok a → ⊥
err_ne_ok h = cc

pub ok_inj {ℓ} : {A : Type ℓ} {a b : A} → ok a ≡ ok b → a ≡ b
ok_inj {a = a} e = ap (λ r. elim r [ ok x ↦ x | _ ↦ a ]) e

pub panic_ne_ok {ℓ} : {A : Type ℓ} {a : A} → panic ≡ ok a → ⊥
panic_ne_ok h = cc

pending_ne_ok {ℓ} : {A : Type ℓ} {a : A} → pending ≡ ok a → ⊥
pending_ne_ok h = cc

pub require_inv {ℓ} :
    {A : Type ℓ} (b : Bool) (e : Error) (k : Go A) (s : Globals) {a : A} {t : Globals}
    → (require b e >> k) s ≡ (ok a, t)
    → (b ≡ true) × (k s ≡ (ok a, t))
unfolding require pure raise ◌>>=◌
require_inv true e k s h = (refl, h)
require_inv false e k s h = absurd (err_ne_ok (ap (λ p. p.0) h))

pub maybe_inv {ℓ κ} :
    {A : Type ℓ} {B : Type κ} (o : Option A) (e : Error) (f : A → Go B) (s : Globals) {b : B}
    {t : Globals}
    → maybe o (raise e) f s ≡ (ok b, t)
    → (a : A) × (o ≡ some a) × (f a s ≡ (ok b, t))
unfolding maybe raise
maybe_inv none e f s h = absurd (err_ne_ok (ap (λ p. p.0) h))
maybe_inv (some a) e f s h = (a, refl, h)

continue_inv {ℓ κ} :
    {A : Type ℓ} {B : Type κ} (r : Result A) (f : A → Go B) (s : Globals) {b : B} {t : Globals}
    → continue r f s ≡ (ok b, t)
    → (a : A) × (r ≡ ok a) × (f a s ≡ (ok b, t))
continue_inv (ok a) f s h = (a, refl, h)
continue_inv (err e) f s h = absurd (err_ne_ok (ap (λ p. p.0) h))
continue_inv panic f s h = absurd (panic_ne_ok (ap (λ p. p.0) h))
continue_inv pending f s h = absurd (pending_ne_ok (ap (λ p. p.0) h))

pub bind_inv {ℓ κ} :
    {A : Type ℓ} {B : Type κ} (m : Go A) (f : A → Go B) (s : Globals) {b : B} {t : Globals}
    → (m >>= f) s ≡ (ok b, t)
    → (a : A) × ((m s).0 ≡ ok a) × (f a (m s).1 ≡ (ok b, t))
unfolding ◌>>=◌
bind_inv m f s h = continue_inv (m s).0 f (m s).1 h

recode_inv {ℓ} :
    {A : Type ℓ} (c : Code) (r : Result A) {a : A} → recode (λ _. status c) r ≡ ok a → r ≡ ok a
recode_inv c (ok a) h = h
recode_inv c (err e) h = cc
recode_inv c panic h = cc
recode_inv c pending h = cc

pub wrap_inv {ℓ} :
    {A : Type ℓ} (c : Code) (m : Go A) (s : Globals) {a : A}
    → (wrap c m s).0 ≡ ok a
    → (m s).0 ≡ ok a
unfolding wrap
wrap_inv c m s h = recode_inv c (m s).0 h

pub require-bind {ℓ} :
    {A : Type ℓ} (b : Bool) (e : Error) (k : Go A) (s : Globals)
    → b ≡ true
    → (require b e >> k) s ≡ k s
unfolding require pure raise ◌>>=◌
require-bind true e k s h = refl
require-bind false e k s h = cc

pub maybe-some {ℓ κ} :
    {A : Type ℓ} {B : Type κ} (o : Option A) (m : Go B) (f : A → Go B) (s : Globals) (a : A)
    → o ≡ some a
    → maybe o m f s ≡ f a s
unfolding maybe
maybe-some o m f s a h = rw (h, maybe)

pub maybe-none {ℓ κ} :
    {A : Type ℓ} {B : Type κ} (o : Option A) (m : Go B) (f : A → Go B) (s : Globals)
    → o ≡ none
    → maybe o m f s ≡ m s
unfolding maybe
maybe-none o m f s h = rw (h, maybe)
