-- ===== src/Server.antt =====
-- pkg/flexblock/server.go: logGRPC around a handler, and serve up to the listener.
pub mod Laws
pub mod Listens
pub mod Lifecycle
use csi_driver_flexblock.Node.Publish.{real_error}
use csi_driver_flexblock.Prelude.Text.{◌<>◌}
use csi_driver_flexblock.Sys.{remove, log, listen}
use csi_driver_flexblock.Endpoint.{parse_endpoint}
use csi_driver_flexblock.Env.{grpc_request, grpc_error, grpc_call, grpc_response, Env}
use csi_driver_flexblock.Go.{
  pending, panic, raise, suspend, crash, pure, maybe, ◌>>◌, err, ◌>>=◌, ok, Result, Go,
}
use csi_driver_flexblock.Prelude.{◌=ₛ◌, if◌then◌else◌, String, [], refl}

-- the lines behind the handler
unfoldable pub log_outcome {ℓ} : {A : Type ℓ} → Result A → Go A
log_outcome (ok a) = do log grpc_response; pure a
log_outcome (err e) = do log grpc_error; raise e
log_outcome panic = crash
log_outcome pending = suspend

-- a handler and the lines behind it
unfoldable pub log_around {ℓ} : {A : Type ℓ} → Go A → Go A
unfolding log_outcome
log_around handler s = let (r, s') = handler s in log_outcome r s'

-- logGRPC: a probe is not logged.
unfoldable pub log_grpc {ℓ} : {A : Type ℓ} → String → Go A → Go A
unfolding log_around
log_grpc method handler =
    if method =ₛ "/csi.v1.Identity/Probe"
    then handler
    else do log (grpc_call method); log grpc_request; log_around handler

-- How `serve` goes on: glog.Fatal ends the process, or the server serves on the listener.
pub data Serving : Type 0 where
  fatal : Serving
  serving : String → String → Serving

module _ (env : Env) where
  -- os.Remove of a socket that is there no longer is no error.
  unfoldable pub listen_on : String → String → Go Serving
  listen_on proto addr = do
    failed ← listen env proto addr
    maybe failed (pure (serving proto addr)) λ _. pure fatal

  unfoldable pub open_listener : String × String → Go Serving
  open_listener (proto, addr) =
      if proto =ₛ "unix"
      then (do
        removed ← remove env ("/" <> addr)
        maybe (real_error removed) (listen_on proto ("/" <> addr)) λ _. pure fatal)
      else listen_on proto addr

  -- parseEndpoint's error is fatal
  unfoldable pub serve_on : Result (String × String) → Go Serving
  serve_on (ok address) = open_listener address
  serve_on (err e) = pure fatal
  serve_on panic = crash
  serve_on pending = suspend

  -- serve, up to server.Serve
  unfoldable pub serve_endpoint : String → Go Serving
  serve_endpoint ep = serve_on (parse_endpoint ep)
