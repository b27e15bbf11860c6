-- ===== src/Tests/Running.antt =====
-- Run and the goroutine of `serve`, at a concrete endpoint.
use csi_driver_flexblock.Sys.{remove, listen}
use csi_driver_flexblock.Prelude.Text.{◌<>◌, lower, has_prefix_fold, strip_prefix, cut}
use csi_driver_flexblock.Endpoint.{parse_endpoint}
use csi_driver_flexblock.Go.{ok, ◌>>=◌, pure, maybe}
use csi_driver_flexblock.Tests.{calm, fresh_state, servers}
use csi_driver_flexblock.Env.{Globals}
use csi_driver_flexblock.Server.Lifecycle.Laws.{Reach-IsOrderly, IsOrderly}
use csi_driver_flexblock.Server.{serving, listen_on, open_listener, serve_on, serve_endpoint}
use csi_driver_flexblock.Prelude.{◌≡◌, some, String, refl}
use csi_driver_flexblock.Server.Lifecycle.{
  new_server, initial, registered, System, Reach, waiting, serves, here, next, starts, opens, makes,
  registers,
}

abbrev socket : String
socket = "unix://csi/csi.sock"

abbrev listening : Globals
listening = (serve_endpoint (calm "") socket fresh_state).1

abbrev serving_system : System
serving_system = record {
  globals = listening;
  server = record { wg = 1; server = some (registered servers new_server) };
  goroutine = serves "unix" "/csi/csi.sock";
  caller = waiting;
}

listen_run :
    serve_endpoint (calm "") socket fresh_state ≡ (ok (serving "unix" "/csi/csi.sock"), listening)
unfolding serve_endpoint serve_on open_listener listen_on parse_endpoint cut strip_prefix
    has_prefix_fold lower listen remove maybe pure ◌>>=◌ ◌<>◌
listen_run = refl

run_up : Reach (calm "") socket servers (initial fresh_state) serving_system
run_up =
    next
      (next
        (next (next here (starts refl refl))
          (opens "unix" "/csi/csi.sock" listening refl listen_run refl))
        (makes "unix" "/csi/csi.sock" refl refl))
      (registers "unix" "/csi/csi.sock" refl refl)

Reach-IsOrderly_example : IsOrderly socket servers serving_system
Reach-IsOrderly_example = Reach-IsOrderly (calm "") socket servers fresh_state serving_system run_up
