-- ===== src/Go/Gives.antt =====
-- What a function returns where it returns no error.
use csi_driver_flexblock.Env.{Globals}
use csi_driver_flexblock.Go.{
  ◌>>◌, maybe, value_or_none, optional, require, pending, panic, err, ok, continue, Error, ◌>>=◌,
  pure, Result, Go, raise,
}
use csi_driver_flexblock.Prelude.{
  ap, if◌then◌else◌, none, ◌∙◌, false, Option, true, some, Bool, subst, ◌≡◌, refl,
}

pub record Gives {ℓ} {A : Type ℓ} (Q : A → Type 0) (m : Go A) : Type ℓ where
  pub at : (s : Globals) (a : A) → (m s).0 ≡ ok a → Q a

ok-eq {ℓ} : {A : Type ℓ} (a b : A) → ok a ≡ ok b → a ≡ b
ok-eq a b e = cc

module _ {ℓ} {A : Type ℓ} {Q : A → Type 0} where
  pub Gives-pure : (a : A) → Q a → Gives Q (pure a)
  unfolding pure
  Gives-pure a q = record { at = λ s b e. subst Q (ok-eq a b e) q }

  pub Gives-raise : (e : Error) → Gives Q (raise e)
  unfolding raise
  Gives-raise e = record { at = λ s b h. cc }

module _ {ℓ κ} {A : Type ℓ} {B : Type κ} {Q : B → Type 0} where
  Gives-continue :
      (r : Result A) (f : A → Go B)
      → ((a : A) → Gives Q (f a))
      → (s : Globals) (b : B) → (continue r f s).0 ≡ ok b
      → Q b
  Gives-continue (ok a) f gf s b e = (gf a).at s b e
  Gives-continue (err x) f gf s b e = cc
  Gives-continue panic f gf s b e = cc
  Gives-continue pending f gf s b e = cc

  pub Gives-bind : (m : Go A) (f : A → Go B) → ((a : A) → Gives Q (f a)) → Gives Q (m >>= f)
  unfolding ◌>>=◌
  Gives-bind m f gf = record { at = λ s b e. let (r, s') = m s in Gives-continue r f gf s' b e }

  Gives-continue_known :
      {P : A → Type 0} (r : Result A) (f : A → Go B)
      → ((a : A) → r ≡ ok a → P a)
      → ((a : A) → P a → Gives Q (f a))
      → (s : Globals) (b : B) → (continue r f s).0 ≡ ok b
      → Q b
  Gives-continue_known (ok a) f given gf s b e = (gf a (given a refl)).at s b e
  Gives-continue_known (err x) f given gf s b e = cc
  Gives-continue_known panic f given gf s b e = cc
  Gives-continue_known pending f given gf s b e = cc

  -- The second function may use what is known of the first one's value.
  pub Gives-then :
      (P : A → Type 0) (m : Go A) (f : A → Go B)
      → Gives P m
      → ((a : A) → P a → Gives Q (f a))
      → Gives Q (m >>= f)
  unfolding ◌>>=◌
  Gives-then P m f gm gf = record {
    at = λ s b e. Gives-continue_known (m s).0 f (gm.at s) gf (m s).1 b e;
  }

  pub Gives-maybe :
      (o : Option A) (m : Go B) (f : A → Go B)
      → Gives Q m
      → ((a : A) → o ≡ some a → Gives Q (f a))
      → Gives Q (maybe o m f)
  unfolding maybe
  Gives-maybe none m f gm gf = gm
  Gives-maybe (some a) m f gm gf = gf a refl

module _ {ℓ} {A : Type ℓ} {Q : A → Type 0} where
  pub Gives-require :
      (b : Bool) (e : Error) (k : Go A) → (b ≡ true → Gives Q k) → Gives Q (require b e >> k)
  unfolding require ◌>>=◌ pure raise
  Gives-require true e k gk = record { at = λ s a h. (gk refl).at s a h }
  Gives-require false e k gk = record { at = λ s a h. cc }

  pub Gives-if :
      (b : Bool) (m n : Go A)
      → (b ≡ true → Gives Q m)
      → (b ≡ false → Gives Q n)
      → Gives Q (if b then m else n)
  Gives-if true m n gm gn = gm refl
  Gives-if false m n gm gn = gn refl

optional_inv {ℓ} : {A : Type ℓ} (r : Result A) (a : A) → value_or_none r ≡ ok (some a) → r ≡ ok a
optional_inv (ok b) a h = cc
optional_inv (err e) a h = cc
optional_inv panic a h = cc
optional_inv pending a h = cc

-- what an optional value is, if it is there
pub Gives-optional :
    {A : Type 0} {Q : A → Type 0} (m : Go A)
    → Gives Q m
    → Gives (λ (o : Option A). (a : A) → o ≡ some a → Q a) (optional m)
unfolding optional
Gives-optional m g = record {
  at = λ s o h a there. g.at s a (optional_inv (m s).0 a (h ∙ ap ok there));
}
