-- ===== src/Remote/Polling.antt =====
-- The loop of createTarget: how much fuel it takes, and that more fuel changes nothing.
use csi_driver_flexblock.Go.{pure, maybe, Result, ok, ◌>>=◌}
use csi_driver_flexblock.Remote.Target.{poll_lun, await_lun}
use csi_driver_flexblock.Prelude.Int.{pos, eq_ℤ, ℤ}
use csi_driver_flexblock.Env.{Globals, Env}
use csi_driver_flexblock.Prelude.{
  arith, ◌<◌, ◌∙◌, false, none, zero, Option, some, suc, ℕ, refl, ◌≡◌, String,
}

module _ (env : Env) (url token : String) (tid : ℤ) (name : String) where
  -- The states in which the first n rounds leave the driver.
  unfoldable pub after_polls : ℕ → Globals → Globals
  after_polls zero s = s
  after_polls (suc n) s = after_polls n (poll_lun env url token tid name s).1

  -- The answer of a round: `some 0` goes on.
  unfoldable pub poll_answer : Globals → Result (Option ℤ)
  poll_answer s = (poll_lun env url token tid name s).0

  -- rounds that end nothing
  abbrev pub AllWaiting : ℕ → Globals → Type 0
  AllWaiting zero s = Unit
  AllWaiting (suc n) s =
      (poll_answer s ≡ ok (some (pos 0))) × AllWaiting n (poll_lun env url token tid name s).1

  await_step :
      (fuel : ℕ) (s : Globals)
      → poll_answer s ≡ ok (some (pos 0))
      → await_lun env (suc fuel) url token tid name s
        ≡ await_lun env fuel url token tid name (poll_lun env url token tid name s).1
  unfolding await_lun ◌>>=◌ poll_answer maybe
  await_step fuel s waits = rw waits refl

  await_error :
      (fuel : ℕ) (s : Globals)
      → poll_answer s ≡ ok none
      → await_lun env (suc fuel) url token tid name s
        ≡ (ok none, (poll_lun env url token tid name s).1)
  unfolding await_lun ◌>>=◌ poll_answer maybe pure
  await_error fuel s fails = rw fails refl

  await_bound :
      (fuel : ℕ) (s : Globals) (lun : ℤ)
      → poll_answer s ≡ ok (some lun)
      → eq_ℤ lun (pos 0) ≡ false
      → await_lun env (suc fuel) url token tid name s
        ≡ (ok (some lun), (poll_lun env url token tid name s).1)
  unfolding await_lun ◌>>=◌ poll_answer maybe pure
  await_bound fuel s lun bound nonzero = rw bound (rw nonzero refl)

  -- If n rounds find the volume not yet bound and the next finds it bound as `lun`, then the loop
  -- ends with `lun`, with any fuel of more than n, and it has made just these rounds.
  pub await_lun-finds :
      (n fuel : ℕ) (s : Globals) (lun : ℤ)
      → n < fuel
      → AllWaiting n s
      → poll_answer (after_polls n s) ≡ ok (some lun)
      → eq_ℤ lun (pos 0) ≡ false
      → await_lun env fuel url token tid name s ≡ (ok (some lun), after_polls (suc n) s)
  unfolding after_polls
  await_lun-finds n zero s lun enough waits bound nonzero = absurd (omega (arith, enough))
  await_lun-finds zero (suc fuel) s lun enough waits bound nonzero =
      await_bound fuel s lun bound nonzero
  await_lun-finds (suc n) (suc fuel) s lun enough (now, later) bound nonzero =
      await_step fuel s now
      ∙ await_lun-finds n fuel (poll_lun env url token tid name s).1 lun (omega (arith, enough))
          later bound nonzero
