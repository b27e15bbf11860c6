-- ===== src/Server/Listens.antt =====
-- Where `serve` of pkg/flexblock/server.go listens.
use csi_driver_flexblock.Prelude.Text.{◌<>◌}
use csi_driver_flexblock.Node.Publish.{real_error}
use csi_driver_flexblock.Go.{pending, panic, err, Result, suspend, ok, crash}
use csi_driver_flexblock.Go.Gives.{Gives-pure, Gives-if, Gives-maybe, Gives-bind, Gives}
use csi_driver_flexblock.Endpoint.{parse_endpoint, listen_address}
use csi_driver_flexblock.Server.{
  fatal, serve_endpoint, open_listener, serve_on, serving, listen_on, Serving,
}
use csi_driver_flexblock.Env.{Env}
use csi_driver_flexblock.Prelude.{false, true, ◌=ₛ◌, ◌≡◌, String, refl}

abbrev pub ServesAt : String → Serving → Type 0
ServesAt ep fatal = Unit
ServesAt ep (serving proto addr) = listen_address ep ≡ ok (proto, addr)

listens_unix :
    (ep proto addr : String)
    → parse_endpoint ep ≡ ok (proto, addr)
    → (proto =ₛ "unix") ≡ true
    → listen_address ep ≡ ok (proto, "/" <> addr)
unfolding listen_address
listens_unix ep proto addr e u = rw (e, listen_address) (rw u refl)

listens_other :
    (ep proto addr : String)
    → parse_endpoint ep ≡ ok (proto, addr)
    → (proto =ₛ "unix") ≡ false
    → listen_address ep ≡ ok (proto, addr)
unfolding listen_address
listens_other ep proto addr e u = rw (e, listen_address) (rw u refl)

module _ (env : Env) where
  Gives-listen_on :
      (Q : Serving → Type 0) (proto addr : String)
      → Q fatal
      → Q (serving proto addr)
      → Gives Q (listen_on env proto addr)
  unfolding listen_on
  Gives-listen_on Q proto addr qf qs =
      Gives-bind _ _ λ failed. Gives-maybe failed _ _ (Gives-pure _ qs) λ e _. Gives-pure _ qf

  Gives-open_listener :
      (ep proto addr : String)
      → parse_endpoint ep ≡ ok (proto, addr)
      → Gives (ServesAt ep) (open_listener env (proto, addr))
  unfolding open_listener
  Gives-open_listener ep proto addr e =
      Gives-if _ _ _
        (λ u. Gives-bind _ _ λ removed.
          Gives-maybe (real_error removed) _ _
            (Gives-listen_on (ServesAt ep) _ _ tt (listens_unix ep proto addr e u))
            λ x _. Gives-pure _ tt)
        λ u. Gives-listen_on (ServesAt ep) _ _ tt (listens_other ep proto addr e u)

  Gives-serve_on :
      (ep : String) (r : Result (String × String))
      → parse_endpoint ep ≡ r
      → Gives (ServesAt ep) (serve_on env r)
  unfolding serve_on crash suspend
  Gives-serve_on ep (ok (proto, addr)) e = Gives-open_listener ep proto addr e
  Gives-serve_on ep (err x) e = Gives-pure _ tt
  Gives-serve_on ep panic e = record { at = λ s b h. cc }
  Gives-serve_on ep pending e = record { at = λ s b h. cc }

  pub Gives-serve_endpoint : (ep : String) → Gives (ServesAt ep) (serve_endpoint env ep)
  unfolding serve_endpoint
  Gives-serve_endpoint ep = Gives-serve_on ep (parse_endpoint ep) refl
