-- ===== src/Tests/Started.antt =====
-- The start of the process, at a concrete command line.
use csi_driver_flexblock.Store.{discover_existing_snapshots, discover_existing_vol}
use csi_driver_flexblock.Go.{ok, ◌>>=◌, gets, modify}
use csi_driver_flexblock.Go.{modify, pure, require, maybe, optional}
use csi_driver_flexblock.Sys.{
  read_dir, read_file, lstat, remove, listen, print, close_file, write_text, open_write, mkdir_all,
}
use csi_driver_flexblock.Prelude.Text.{◌<>◌, lower, has_prefix_fold, strip_prefix, cut}
use csi_driver_flexblock.Endpoint.{parse_endpoint}
use csi_driver_flexblock.Controller.{new_controller_server}
use csi_driver_flexblock.Prelude.Int.{pos}
use csi_driver_flexblock.Server.{listen_on, open_listener, serve_on, serve_endpoint}
use csi_driver_flexblock.Tests.{fresh_state, calm}
use csi_driver_flexblock.Node.{new_node_server}
use csi_driver_flexblock.Identity.{new_flexblock_driver, run_driver, new_identity_server, Servers}
use csi_driver_flexblock.Main.Laws.{Started-main, Started}
use csi_driver_flexblock.Prelude.{◌≡◌, false, refl}
use csi_driver_flexblock.Main.{
  close_deferred, default_flags, Flags, with_pidfile, main, start, handle, run, waiting,
}

abbrev flags : Flags
flags = record (default_flags "flexblockplugin") {
  node_id = "node1";
  endpoint = "unix://csi/csi.sock";
}

abbrev started : Servers
started = record {
  ids = new_identity_server "flexblock.csi.k8s.io" "dev";
  ns = new_node_server "node1" false (pos 0);
  cs = new_controller_server false "node1";
}

main_run : (main (calm "") flags "" fresh_state).0 ≡ ok (waiting "unix" "/csi/csi.sock" started)
unfolding main with_pidfile start handle run close_deferred run_driver new_flexblock_driver
    serve_endpoint serve_on open_listener listen_on parse_endpoint cut strip_prefix has_prefix_fold
    lower mkdir_all open_write write_text close_file print listen remove optional maybe require pure
    modify gets ◌>>=◌ ◌<>◌ discover_existing_vol lstat read_file discover_existing_snapshots
    read_dir
main_run = refl

Started-main_example : Started flags "" "unix" "/csi/csi.sock" started
Started-main_example =
    Started-main (calm "") flags "" fresh_state "unix" "/csi/csi.sock" started main_run
