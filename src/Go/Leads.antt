-- ===== src/Go/Leads.antt =====
-- What a function may leave in the map of volumes, from the map `old`, whatever it returns, with a rule for
-- each way to build a function.
use csi_driver_flexblock.Env.{Globals}
use csi_driver_flexblock.Go.Frame.{Frame}
use csi_driver_flexblock.Store.{get_volume_by_id}
use csi_driver_flexblock.Volume.{lookup, Volume, Volumes}
use csi_driver_flexblock.Go.{
  attempt, pending, panic, ◌>>◌, err, handled, ok, raise, continue, pure, Code, catch, Result, Go,
  Error, ◌>>=◌, maybe, require, wrap,
}
use csi_driver_flexblock.Prelude.{
  ap, inr, if◌then◌else◌, inl, sym, Option-cases, false, none, some, true, subst, ◌∙◌, ◌≡◌, Option,
  Bool, refl, String,
}

pub record Leads {ℓ} {A : Type ℓ} (old : Volumes) (Q : Volumes → Type 0) (m : Go A) : Type ℓ where
  pub at : (s : Globals) → s.volumes ≡ old → Q (m s).1.volumes

module _ {ℓ} {A : Type ℓ} (Q : Volumes → Type 0) where
  Leads-handled :
      (h : Error → Go A)
      → ((e : Error) → Frame (h e))
      → (r : Result A) (s : Globals) → Q s.volumes
      → Q (handled h r s).1.volumes
  Leads-handled h fh (ok a) s q = q
  Leads-handled h fh (err e) s q = subst Q (sym ((fh e).volumes s)) q
  Leads-handled h fh panic s q = q
  Leads-handled h fh pending s q = q

module _ {ℓ κ} {A : Type ℓ} {B : Type κ} (Q : Volumes → Type 0) where
  Leads-continue_first :
      (r : Result A) (f : A → Go B)
      → ((a : A) → Frame (f a))
      → (s : Globals) → Q s.volumes
      → Q (continue r f s).1.volumes
  Leads-continue_first (ok a) f ff s q = subst Q (sym ((ff a).volumes s)) q
  Leads-continue_first (err e) f ff s q = q
  Leads-continue_first panic f ff s q = q
  Leads-continue_first pending f ff s q = q

  Leads-continue_then :
      (r : Result A) (f : A → Go B) (s : Globals)
      → Q s.volumes
      → ((a : A) → Leads s.volumes Q (f a))
      → Q (continue r f s).1.volumes
  Leads-continue_then (ok a) f s q lf = (lf a).at s refl
  Leads-continue_then (err e) f s q lf = q
  Leads-continue_then panic f s q lf = q
  Leads-continue_then pending f s q lf = q

module _ {ℓ} {A : Type ℓ} {old : Volumes} {Q : Volumes → Type 0} where
  -- A function that leaves the map alone.
  pub Leads-Frame : Q old → (m : Go A) → Frame m → Leads old Q m
  Leads-Frame same m f = record { at = λ s h. subst Q (sym (f.volumes s ∙ h)) same }

  pub Leads-if :
      (test : Bool) (m n : Go A)
      → (test ≡ true → Leads old Q m)
      → (test ≡ false → Leads old Q n)
      → Leads old Q (if test then m else n)
  Leads-if true m n lm ln = lm refl
  Leads-if false m n lm ln = ln refl

  pub Leads-wrap : (c : Code) (m : Go A) → Leads old Q m → Leads old Q (wrap c m)
  unfolding wrap
  Leads-wrap c m l = record { at = l.at }

  pub Leads-catch :
      (h : Error → Go A) (m : Go A)
      → ((e : Error) → Frame (h e))
      → Leads old Q m
      → Leads old Q (catch h m)
  unfolding catch
  Leads-catch h m fh l = record {
    at = λ s same. let (r, s') = m s in Leads-handled Q h fh r s' (l.at s same);
  }

module _ {ℓ κ} {A : Type ℓ} {B : Type κ} {old : Volumes} {Q : Volumes → Type 0} where
  Leads-continue :
      (r : Result A) (f : A → Go B)
      → ((a : A) → r ≡ ok a → Leads old Q (f a))
      → Q old
      → (s : Globals) → s.volumes ≡ old
      → Q (continue r f s).1.volumes
  Leads-continue (ok a) f lf same s h = (lf a refl).at s h
  Leads-continue (err e) f lf same s h = subst Q (sym h) same
  Leads-continue panic f lf same s h = subst Q (sym h) same
  Leads-continue pending f lf same s h = subst Q (sym h) same

  -- The map is left alone first, and the rest may change it.
  pub Leads-bind :
      Q old
      → (m : Go A) (f : A → Go B) → Frame m
      → ((a : A) → Leads old Q (f a))
      → Leads old Q (m >>= f)
  unfolding ◌>>=◌
  Leads-bind same m f fm lf = record {
    at = λ s h. let (r, s') = m s in Leads-continue r f (λ a _. lf a) same s' (fm.volumes s ∙ h);
  }

  -- The first function may change the map, and the rest leaves it alone.
  pub Leads-first :
      (m : Go A) (f : A → Go B) → ((a : A) → Frame (f a)) → Leads old Q m → Leads old Q (m >>= f)
  unfolding ◌>>=◌
  Leads-first m f ff l = record {
    at = λ s h. let (r, s') = m s in Leads-continue_first Q r f ff s' (l.at s h);
  }

  -- Both functions may change the map.
  pub Leads-then :
      (P : Volumes → Type 0) (m : Go A) (f : A → Go B)
      → ((mid : Volumes) → P mid → Q mid)
      → Leads old P m
      → ((mid : Volumes) → P mid → (a : A) → Leads mid Q (f a))
      → Leads old Q (m >>= f)
  unfolding ◌>>=◌
  Leads-then P m f pq l lf = record {
    at = λ s h.
        let (r, s') = m s in
        Leads-continue_then Q r f s' (pq s'.volumes (l.at s h)) (lf s'.volumes (l.at s h));
  }

  pub Leads-maybe :
      (o : Option A) (m : Go B) (f : A → Go B)
      → Leads old Q m
      → ((a : A) → o ≡ some a → Leads old Q (f a))
      → Leads old Q (maybe o m f)
  unfolding maybe
  Leads-maybe none m f lm lf = lm
  Leads-maybe (some a) m f lm lf = lf a refl

-- Behind a test that returns an error, the rest may use that it holds.
pub Leads-require {ℓ} :
    {A : Type ℓ} {old : Volumes} {Q : Volumes → Type 0}
    → Q old
    → (b : Bool) (e : Error) (k : Go A) → (b ≡ true → Leads old Q k)
    → Leads old Q (require b e >> k)
unfolding require ◌>>=◌ pure raise
Leads-require same true e k lk = record { at = λ s h. (lk refl).at s h }
Leads-require {Q = Q} same false e k lk = record { at = λ s h. subst Q (sym h) same }

-- Behind a lookup by id, the rest may use that the map has the volume found.
pub Leads-get_volume {ℓ} :
    {A : Type ℓ} {old : Volumes} {Q : Volumes → Type 0}
    → Q old
    → (c : Code) (id : String) (f : Volume → Go A)
    → ((vol : Volume) → lookup id old ≡ some vol → Leads old Q (f vol))
    → Leads old Q (wrap c (get_volume_by_id id) >>= f)
unfolding wrap get_volume_by_id ◌>>=◌
Leads-get_volume {old = old} {Q = Q} same c id f lf = record {
  at = λ s h. elim (Option-cases (lookup id s.volumes)) [
    | inl absent ↦ rw absent (subst Q (sym h) same)
    | inr (vol, found) ↦ rw found ((lf vol (ap (lookup id) (sym h) ∙ found)).at s h)
  ];
}

pub Leads-attempt :
    {old : Volumes} {Q : Volumes → Type 0} (m : Go (Unit {0}))
    → Leads old Q m
    → Leads old Q (attempt m)
unfolding attempt
Leads-attempt m l = record { at = l.at }
