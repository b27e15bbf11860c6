-- ===== src/Driver/Commands/Issues.antt =====
-- The commands that a function has run where it succeeds, in their order, whatever else it has called.
use csi_driver_flexblock.Driver.Commands.{require-state, ran}
use csi_driver_flexblock.Sys.{run}
use csi_driver_flexblock.Driver.Disk.{checked}
use csi_driver_flexblock.Store.{save_existing_vol}
use csi_driver_flexblock.Env.{Call, Globals, History, Env}
use csi_driver_flexblock.Sys.{write_volumes, open_write, mkdir_all, remove_all, sleep}
use csi_driver_flexblock.Go.{
  pending, panic, err, continue, ok, Go, Error, Result, raise, ◌>>=◌, maybe, pure,
}
use csi_driver_flexblock.Prelude.{
  false, true, if◌then◌else◌, Bool, ◌∙◌, none, ap, ◌++◌, some, ◌≡◌, ℕ, Option, List, String, ◌∷◌,
  [], refl,
}

-- the commands of a history, the newest first
unfoldable pub commands : History → List (List String)
commands [] = []
commands (Call.run c ∷ h) = c ∷ commands h
commands (_ ∷ h) = commands h

-- `cs`, run in their order behind the commands of `past`
abbrev pub noted : List (List String) → List (List String) → List (List String)
noted [] past = past
noted (c ∷ cs) past = noted cs (c ∷ past)

pub noted-append :
    (as' bs past : List (List String)) → noted bs (noted as' past) ≡ noted (as' ++ bs) past
noted-append [] bs past = refl
noted-append (c ∷ as') bs past = noted-append as' bs (c ∷ past)

pub commands-ran :
    (cs : List (List String)) (s : Globals)
    → commands (ran cs s).calls ≡ noted cs (commands s.calls)
unfolding commands
commands-ran [] s = refl
commands-ran (c ∷ cs) s = commands-ran cs _

-- A function that, where it succeeds, has run just these commands.
pub record Issues {ℓ} {A : Type ℓ} (cs : List (List String)) (m : Go A) : Type ℓ where
  pub at :
      (s : Globals) (a : A) → (m s).0 ≡ ok a → commands (m s).1.calls ≡ noted cs (commands s.calls)

module _ {ℓ} {A : Type ℓ} where
  pub Issues-pure : (a : A) → Issues [] (pure a)
  unfolding pure
  Issues-pure a = record { at = λ s b e. refl }

  pub Issues-raise : (e : Error) → Issues [] (raise {A = A} e)
  unfolding raise
  Issues-raise e = record { at = λ s b h. refl }

module _ {ℓ κ} {A : Type ℓ} {B : Type κ} where
  Issues-continue :
      (as' bs : List (List String)) (r : Result A) (f : A → Go B) (s : Globals)
      (past : List (List String))
      → ((a : A) → r ≡ ok a → commands s.calls ≡ noted as' past)
      → ((a : A) → Issues bs (f a))
      → (b : B) → (continue r f s).0 ≡ ok b
      → commands (continue r f s).1.calls ≡ noted (as' ++ bs) past
  Issues-continue as' bs (ok a) f s past given jf b h =
      (jf a).at s b h ∙ ap (noted bs) (given a refl) ∙ noted-append as' bs past
  Issues-continue as' bs (err e) f s past given jf b h = cc
  Issues-continue as' bs panic f s past given jf b h = cc
  Issues-continue as' bs pending f s past given jf b h = cc

  pub Issues-bind :
      (as' bs : List (List String)) (m : Go A) (f : A → Go B)
      → Issues as' m
      → ((a : A) → Issues bs (f a))
      → Issues (as' ++ bs) (m >>= f)
  unfolding ◌>>=◌
  Issues-bind as' bs m f jm jf = record {
    at = λ s b h.
        Issues-continue as' bs (m s).0 f (m s).1 (commands s.calls) (λ a e. jm.at s a e) jf b h;
  }

  pub Issues-maybe :
      (cs : List (List String)) (o : Option A) (m : Go B) (f : A → Go B)
      → Issues cs m
      → ((a : A) → Issues cs (f a))
      → Issues cs (maybe o m f)
  unfolding maybe
  Issues-maybe cs none m f jm jf = jm
  Issues-maybe cs (some a) m f jm jf = jf a

module _ (env : Env) where
  pub Issues-checked : (c : List String) → Issues (c ∷ []) (checked env c)
  unfolding checked run commands ◌>>=◌
  Issues-checked c = record {
    at = λ s u h. ap (λ (t : Globals). commands t.calls) (require-state _ _ _);
  }

  pub Issues-mkdir_all : (path : String) → Issues [] (mkdir_all env path)
  unfolding mkdir_all commands
  Issues-mkdir_all path = record { at = λ s a h. refl }

  pub Issues-remove_all : (path : String) → Issues [] (remove_all env path)
  unfolding remove_all commands
  Issues-remove_all path = record { at = λ s a h. refl }

  -- Saving the map runs no command.
  pub Issues-save : Issues [] (save_existing_vol env)
  unfolding save_existing_vol open_write write_volumes commands
  Issues-save = Issues-bind [] [] _ _ (Issues-mkdir_all _) λ made.
      Issues-maybe [] made _ _
        (Issues-bind [] [] _ _ (record { at = λ s a h. refl })
          λ opened.
            Issues-maybe [] opened _ _
              (record { at = λ s a h. encoded s (env.encode_answer s.calls s.volumes) })
              λ _. Issues-pure tt)
        λ _. Issues-pure tt
    where
      encoded :
          (s : Globals) (b : Bool)
          → commands
              ((if b then Call.write_volumes s.volumes else Call.write_failed s.volumes) ∷ s.calls)
            ≡ commands s.calls
      encoded s true = refl
      encoded s false = refl

pub Issues-sleep : (n : ℕ) → Issues [] (sleep n)
unfolding sleep commands
Issues-sleep n = record { at = λ s a h. refl }
