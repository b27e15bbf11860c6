-- ===== src/Main.antt =====
-- cmd/flexblockplugin/main.go, with Run of pkg/flexblock/flexblock.go behind it.
pub mod Laws
use csi_driver_flexblock.Prelude.Text.{◌<>◌}
use csi_driver_flexblock.Prelude.Decimal.{show}
use csi_driver_flexblock.Sys.{open_write, print, mkdir_all, close_file, write_text}
use csi_driver_flexblock.Server.{serve_endpoint, fatal, serving, Serving}
use csi_driver_flexblock.Go.{maybe, pure, ◌>>◌, optional, ◌>>=◌, Go}
use csi_driver_flexblock.Prelude.Int.{ℤ, pos}
use csi_driver_flexblock.Identity.{new_flexblock_driver, run_driver, FlexBlock, Servers}
use csi_driver_flexblock.Env.{Env}
use csi_driver_flexblock.Prelude.{if◌then◌else◌, false, Bool, ℕ, String, [], refl}

-- The command line, as flag.Parse leaves it; `program` is path.Base of the program's name.
pub record Flags : Type 0 where
  pub program : String
  pub endpoint : String
  pub driver_name : String
  pub node_id : String
  pub ephemeral : Bool
  pub max_volumes_per_node : ℤ
  pub show_version : Bool

-- the flags of a command line with none
abbrev pub default_flags : String → Flags
default_flags program = record {
  program = program;
  endpoint = "unix://tmp/csi.sock";
  driver_name = "flexblock.csi.k8s.io";
  node_id = "";
  ephemeral = false;
  max_volumes_per_node = pos 0;
  show_version = false;
}

abbrev pub pidfile : String
pidfile = "/var/run/flexblockplugin.pid"

-- How the process goes on: `main` returned, os.Exit was called, glog.Fatal was, or the server serves and
-- `main` waits for it.
pub data Process : Type 0 where
  returned : Process
  exited : ℕ → Process
  died : Process
  waiting : String → String → Servers → Process

abbrev pub process_of : Servers → Serving → Process
process_of servers fatal = died
process_of servers (serving proto addr) = waiting proto addr servers

module _ (env : Env) where
  -- Run: the goroutine of Start serves, and Wait waits for a group that nothing is taken out of.
  unfoldable pub run : FlexBlock → Go Process
  run hp = do
    servers ← run_driver env hp
    served ← serve_endpoint env hp.endpoint
    pure (process_of servers served)

  -- handle
  unfoldable pub handle : Flags → String → Go Process
  handle flags version = do
    driver ← optional (
        new_flexblock_driver env flags.driver_name flags.node_id flags.endpoint flags.ephemeral
          flags.max_volumes_per_node version)
    maybe driver (do print "Failed to initialize driver"; pure (exited 1)) run

  -- main, behind the pid file; os.Exit(0) behind handle is not reached
  unfoldable pub start : Flags → String → Go Process
  start flags version =
      if flags.show_version
      then (do print (flags.program <> " " <> version); pure returned)
      else (do
        (if flags.ephemeral then print "Deprecation warning" else pure tt)
        handle flags version)

  -- `defer file.Close()`, which runs where main returns
  unfoldable pub close_deferred : Process → Go Process
  close_deferred returned = do ignored ← close_file env pidfile; pure returned
  close_deferred p = pure p

  -- main, with the pid file open
  unfoldable pub with_pidfile : Flags → String → Go Process
  with_pidfile flags version = do
    written ← write_text env pidfile (show env.pid)
    maybe written
        (do closed ← close_file env pidfile; maybe closed (start flags version) λ _. pure returned)
        λ _. pure returned

  -- main
  unfoldable pub main : Flags → String → Go Process
  main flags version = do
    made ← mkdir_all env "/var/run"
    maybe made
        (do
          opened ← open_write env pidfile
          maybe opened (do ended ← with_pidfile flags version; close_deferred ended)
              λ _. pure returned)
        λ _. pure returned
