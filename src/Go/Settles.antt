-- ===== src/Go/Settles.antt =====
-- What a function has made of the map of volumes, from the map `old`, where it returns no error, with a rule for each
-- way to build a function.
use csi_driver_flexblock.Go.Inversion.{err_ne_ok}
use csi_driver_flexblock.Go.Frame.{Frame}
use csi_driver_flexblock.Env.{Globals}
use csi_driver_flexblock.Store.{get_volume_by_id}
use csi_driver_flexblock.Volume.{lookup, Volume, Volumes}
use csi_driver_flexblock.Prelude.{
  ap, inr, inl, Option-cases, if◌then◌else◌, none, false, ◌∙◌, some, true, sym, Option, ◌≡◌, subst,
  Bool, String, refl,
}
use csi_driver_flexblock.Go.{
  crash, gets, ◌>>◌, err, ok, status, Error, recode, raise, maybe, pure, wrap, Go, Code, Result,
  ◌>>=◌, require, continue, panic, pending,
}

pub record Settles {ℓ} {A : Type ℓ} (old : Volumes) (Q : Volumes → Type 0) (m : Go A) : Type ℓ where
  pub at : (s : Globals) → s.volumes ≡ old → (a : A) → (m s).0 ≡ ok a → Q (m s).1.volumes

wrap-ok {ℓ} :
    {A : Type ℓ} (c : Code) (r : Result A) (a : A) → recode (λ _. status c) r ≡ ok a → r ≡ ok a
wrap-ok c (ok b) a h = h
wrap-ok c (err e) a h = cc
wrap-ok c panic a h = cc
wrap-ok c pending a h = cc

module _ {ℓ} {A : Type ℓ} {old : Volumes} {Q : Volumes → Type 0} where
  pub Settles-pure : (a : A) → Q old → Settles old Q (pure a)
  unfolding pure
  Settles-pure a q = record { at = λ s h b e. subst Q (sym h) q }

  pub Settles-raise : (e : Error) → Settles old Q (raise {A = A} e)
  unfolding raise
  Settles-raise e = record { at = λ s h b r. cc }

  pub Settles-crash : Settles old Q (crash {A = A})
  unfolding crash
  Settles-crash = record { at = λ s h b r. cc }

  pub Settles-if :
      (test : Bool) (m n : Go A)
      → (test ≡ true → Settles old Q m)
      → (test ≡ false → Settles old Q n)
      → Settles old Q (if test then m else n)
  Settles-if true m n lm ln = lm refl
  Settles-if false m n lm ln = ln refl

  pub Settles-wrap : (c : Code) (m : Go A) → Settles old Q m → Settles old Q (wrap c m)
  unfolding wrap
  Settles-wrap c m l = record { at = λ s h a r. l.at s h a (wrap-ok c (m s).0 a r) }

module _ {ℓ κ} {A : Type ℓ} {B : Type κ} {Q : Volumes → Type 0} where
  Settles-continue :
      (r : Result A) (f : A → Go B) (s : Globals)
      → ((a : A) → r ≡ ok a → Settles s.volumes Q (f a))
      → (b : B) → (continue r f s).0 ≡ ok b
      → Q (continue r f s).1.volumes
  Settles-continue (ok a) f s lf b h = (lf a refl).at s refl b h
  Settles-continue (err e) f s lf b h = cc
  Settles-continue panic f s lf b h = cc
  Settles-continue pending f s lf b h = cc

module _ {ℓ κ} {A : Type ℓ} {B : Type κ} {old : Volumes} {Q : Volumes → Type 0} where
  -- The map is left alone first.
  pub Settles-bind :
      (m : Go A) (f : A → Go B)
      → Frame m
      → ((a : A) → Settles old Q (f a))
      → Settles old Q (m >>= f)
  unfolding ◌>>=◌
  Settles-bind m f fm lf = record {
    at = λ s h b e.
        Settles-continue (m s).0 f (m s).1
          (λ a _. subst (λ vs. Settles vs Q (f a)) (sym (fm.volumes s ∙ h)) (lf a)) b e;
  }

  -- The map may be changed first, in any way.
  pub Settles-after :
      (m : Go A) (f : A → Go B)
      → ((mid : Volumes) (a : A) → Settles mid Q (f a))
      → Settles old Q (m >>= f)
  unfolding ◌>>=◌
  Settles-after m f lf = record {
    at = λ s h b e. Settles-continue (m s).0 f (m s).1 (λ a _. lf (m s).1.volumes a) b e;
  }

  -- Both may change the map, and the second starts from what the first has settled.
  pub Settles-then :
      (P : Volumes → Type 0) (m : Go A) (f : A → Go B)
      → Settles old P m
      → ((mid : Volumes) → P mid → (a : A) → Settles mid Q (f a))
      → Settles old Q (m >>= f)
  unfolding ◌>>=◌
  Settles-then P m f l lf = record {
    at = λ s h b e.
        Settles-continue (m s).0 f (m s).1 (λ a r. lf (m s).1.volumes (l.at s h a r) a) b e;
  }

  -- The rest leaves the map alone.
  pub Settles-first :
      (m : Go A) (f : A → Go B)
      → ((a : A) → Frame (f a))
      → Settles old Q m
      → Settles old Q (m >>= f)
  unfolding ◌>>=◌
  Settles-first m f ff l = record {
    at = λ s h b e.
        Settles-continue {Q = Q} (m s).0 f (m s).1
          (λ a r. record { at = λ t g c k. subst Q (sym ((ff a).volumes t ∙ g)) (l.at s h a r) }) b
          e;
  }

  pub Settles-maybe :
      (o : Option A) (m : Go B) (f : A → Go B)
      → (o ≡ none → Settles old Q m)
      → ((a : A) → o ≡ some a → Settles old Q (f a))
      → Settles old Q (maybe o m f)
  unfolding maybe
  Settles-maybe none m f lm lf = lm refl
  Settles-maybe (some a) m f lm lf = lf a refl

pub Settles-require {ℓ} :
    {A : Type ℓ} {old : Volumes} {Q : Volumes → Type 0} (b : Bool) (e : Error) (k : Go A)
    → (b ≡ true → Settles old Q k)
    → Settles old Q (require b e >> k)
unfolding require ◌>>=◌ pure raise
Settles-require true e k lk = record { at = λ s h a r. (lk refl).at s h a r }
Settles-require false e k lk = record { at = λ s h a r. cc }

-- a volume that must be there
pub Settles-get_volume {ℓ} :
    {A : Type ℓ} {old : Volumes} {Q : Volumes → Type 0} (c : Code) (id : String) (f : Volume → Go A)
    → ((vol : Volume) → lookup id old ≡ some vol → Settles old Q (f vol))
    → Settles old Q (wrap c (get_volume_by_id id) >>= f)
unfolding ◌>>=◌ wrap get_volume_by_id
Settles-get_volume c id f lf = record {
  at = λ s h a r. elim (Option-cases (lookup id s.volumes)) [
    | inl absent ↦ absurd (err_ne_ok (rw absent at r))
    | inr (vol, found) ↦
        rw found ((lf vol (ap (lookup id) (sym h) ∙ found)).at s h a (rw found at r))
  ];
}

-- a lookup by id, found or not
pub Settles-lookup {ℓ} :
    {A : Type ℓ} {old : Volumes} {Q : Volumes → Type 0} (id : String) (f : Option Volume → Go A)
    → ((found : Option Volume) → lookup id old ≡ found → Settles old Q (f found))
    → Settles old Q (gets (λ s. lookup id s.volumes) >>= f)
unfolding ◌>>=◌ gets
Settles-lookup id f lf = record {
  at = λ s h a r. (lf (lookup id s.volumes) (ap (lookup id) (sym h))).at s h a r;
}
