-- ===== src/Server/Lifecycle/Laws.antt =====
-- Run and the goroutine of `serve`, in any order of their steps.
use csi_driver_flexblock.Server.{serving}
use csi_driver_flexblock.Server.Listens.{Gives-serve_endpoint}
use csi_driver_flexblock.Go.{ok}
use csi_driver_flexblock.Endpoint.{listen_address}
use csi_driver_flexblock.Identity.{Servers}
use csi_driver_flexblock.Env.{Globals, Env}
use csi_driver_flexblock.Prelude.{
  arith, true, ◌==◌, some, ◌+◌, none, ap, Option, ◌≢◌, ◌≡◌, ℕ, String, refl,
}
use csi_driver_flexblock.Server.Lifecycle.{
  on_server, initial, Reach, registered, new_server, GrpcServer, Step, System, Phase, Caller,
  starting, waiting, returned, not_begun, begun, died, opened, made, serves, over, here, next,
  starts, returns, opens, dies, makes, registers, ends,
}

-- The count of the wait group by where Run stands. It has not come back from Wait.
abbrev pub CallerFits : Caller → ℕ → Phase → Type 0
CallerFits starting wg g = (wg ≡ 0) × (g ≡ not_begun)
CallerFits waiting wg g = wg ≡ 1
CallerFits returned wg g = ⊥

-- The server by where the goroutine stands.
abbrev pub PhaseFits : String → Servers → Phase → Option GrpcServer → Type 0
PhaseFits ep servers not_begun o = o ≡ none
PhaseFits ep servers begun o = o ≡ none
PhaseFits ep servers died o = o ≡ none
PhaseFits ep servers (opened proto addr) o = (o ≡ none) × (listen_address ep ≡ ok (proto, addr))
PhaseFits ep servers (made proto addr) o =
    (o ≡ some new_server) × (listen_address ep ≡ ok (proto, addr))
PhaseFits ep servers (serves proto addr) o =
    (o ≡ some (registered servers new_server)) × (listen_address ep ≡ ok (proto, addr))
PhaseFits ep servers (over proto addr) o =
    (o ≡ some (registered servers new_server)) × (listen_address ep ≡ ok (proto, addr))

abbrev pub IsOrderly : String → Servers → System → Type 0
IsOrderly ep servers t =
    CallerFits t.caller t.server.wg t.goroutine × PhaseFits ep servers t.goroutine t.server.server

still_counted : (n : ℕ) → n ≡ 1 → (n == 0) ≡ true → ⊥
still_counted n one none_left = ground arith

module _ (env : Env) (ep : String) (servers : Servers) where
  keeps_caller :
      (c : Caller) (wg : ℕ) (g h : Phase) → g ≢ not_begun → CallerFits c wg g → CallerFits c wg h
  keeps_caller starting wg g h begun_already fits = absurd (begun_already fits.1)
  keeps_caller waiting wg g h begun_already fits = fits
  keeps_caller returned wg g h begun_already fits = fits

  Step-IsOrderly :
      (s t : System) → Step env ep servers s t → IsOrderly ep servers s → IsOrderly ep servers t
  Step-IsOrderly s t (starts c e) inv =
      let w = rw c at inv.0 in rw e (ap (λ n. n + 1) w.0, rw w.1 at inv.1)
  Step-IsOrderly s t (returns c w e) inv = absurd (still_counted s.server.wg (rw c at inv.0) w)
  Step-IsOrderly s t (opens proto addr g p o e) inv = rw e (
    keeps_caller s.caller s.server.wg s.goroutine (opened proto addr) (λ q. cc) inv.0,
    (
      rw p at inv.1,
      (Gives-serve_endpoint env ep).at s.globals (serving proto addr) (ap (λ r. r.0) o),
    ),
  )
  Step-IsOrderly s t (dies g p o e) inv =
      rw e (keeps_caller s.caller s.server.wg s.goroutine died (λ q. cc) inv.0, rw p at inv.1)
  Step-IsOrderly s t (makes proto addr p e) inv =
      let fits = rw p at inv.1 in
      rw e (
        keeps_caller s.caller s.server.wg s.goroutine (made proto addr) (λ q. cc) inv.0,
        (refl, fits.1),
      )
  Step-IsOrderly s t (registers proto addr p e) inv =
      let fits = rw p at inv.1 in
      rw e (
        keeps_caller s.caller s.server.wg s.goroutine (serves proto addr) (λ q. cc) inv.0,
        (ap (on_server (registered servers)) fits.0, fits.1),
      )
  Step-IsOrderly s t (ends proto addr p e) inv = rw e (
    keeps_caller s.caller s.server.wg s.goroutine (over proto addr) (λ q. cc) inv.0,
    rw p at inv.1,
  )

  Reach-IsOrderly_from :
      (s t : System) → IsOrderly ep servers s → Reach env ep servers s t → IsOrderly ep servers t
  Reach-IsOrderly_from s t inv here = inv
  Reach-IsOrderly_from s t inv (next {t = u} r st) =
      Step-IsOrderly u t st (Reach-IsOrderly_from s u inv r)

  -- Whatever steps Run and the goroutine of `serve` take, and in whatever order, Run has not come back from Wait, since
  -- the count is 1 from Start on; the server is nil until a listener is open, which is at the address
  -- of the endpoint; and where the goroutine serves, and behind that, its server has the three services of Run.
  pub Reach-IsOrderly :
      (g : Globals) (t : System) → Reach env ep servers (initial g) t → IsOrderly ep servers t
  Reach-IsOrderly g t r = Reach-IsOrderly_from (initial g) t ((refl, refl), refl) r
