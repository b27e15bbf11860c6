-- ===== src/Tests/Restarted.antt =====
-- A restart behind some calls, at concrete inputs.
use csi_driver_flexblock.Rpc.Restart.{FileHolds, restart-serve}
use csi_driver_flexblock.Prelude.Int.{pos}
use csi_driver_flexblock.Tests.Instances.{saved_volume, calls_served, can_save}
use csi_driver_flexblock.Rpc.{serve}
use csi_driver_flexblock.Tests.{fresh_state, servers, calm}
use csi_driver_flexblock.Env.{last_written, Globals, Env}
use csi_driver_flexblock.Volume.{lookup, Volumes}
use csi_driver_flexblock.Identity.{run_driver, FlexBlock}
use csi_driver_flexblock.Rpc.Saved.{IsSaved-serve, IsSaved}
use csi_driver_flexblock.Prelude.{◌∙◌, sym, some_inj, ap, ◌≡◌, some, false, refl}

abbrev behind : Globals
behind = serve (calm "") 5 servers calls_served saved_volume

-- the file has the map that was written
abbrev again : Env
again = record (calm "") {
  read_file_answer = λ h p. some "{}";
  decode_volumes = λ text vs. behind.volumes;
}

abbrev driver : FlexBlock
driver = record {
  name = "flexblock.csi.k8s.io";
  node_id = "node1";
  version = "dev";
  endpoint = "unix://csi/csi.sock";
  ephemeral = false;
  max_volumes_per_node = pos 0;
}

saved_volume-IsSaved : IsSaved saved_volume
unfolding last_written
saved_volume-IsSaved = refl

behind-IsSaved : IsSaved behind
behind-IsSaved =
    IsSaved-serve (calm "") can_save 5 servers calls_served saved_volume saved_volume-IsSaved

holds_written : (vs : Volumes) → last_written behind.calls ≡ some vs → FileHolds again vs
holds_written vs given = record {
  text = "{}";
  there = λ h. refl;
  readable = λ h. refl;
  decoded = λ j. ap (lookup j) (some_inj _ _ (sym behind-IsSaved ∙ given));
}

restart-serve_example :
    lookup "a1" (run_driver again driver fresh_state).1.volumes ≡ lookup "a1" behind.volumes
restart-serve_example =
    restart-serve (calm "") 5 servers calls_served saved_volume again driver fresh_state can_save
      saved_volume-IsSaved holds_written refl "a1"
