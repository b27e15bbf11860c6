-- ===== src/Tests.antt =====
-- An environment that answers every call, for the runs on concrete inputs.
mod Runs
mod Instances
mod Requests
mod Served
mod Answered
mod Started
mod Running
mod Restarted
mod Published
mod Raced
mod Outage
mod Commands
use csi_driver_flexblock.Identity.{Servers}
use csi_driver_flexblock.Prelude.{String, Bool, true, false, none, some, [], ◌∷◌, refl}
use csi_driver_flexblock.Prelude.Int.{pos}
use csi_driver_flexblock.Env.{Env, Globals}
use csi_driver_flexblock.Volume.{Volume, mount_access, block_access}
use csi_driver_flexblock.Controller.{create_delete_volume, ControllerServer, new_controller_server}
use csi_driver_flexblock.Node.{NodeServer}
use csi_driver_flexblock.Csi.{volume_source, CreateVolumeRequest, mount_volume}

-- Every command succeeds and prints `text`, no file is there, and the server does not answer.
abbrev pub calm : String → Env
calm text = record {
  run_answer = λ h args. record { text = text; failed = false };
  send_answer = λ h r. none;
  mkdir_all_answer = λ h p. none;
  remove_all_answer = λ h p. none;
  read_dir_answer = λ h p. [];
  read_link_answer = λ h p. none;
  read_one_answer = λ h p. some false;
  lstat_answer = λ h p. none;
  stat_answer = λ h p. none;
  make_file_answer = λ h p. none;
  is_not_mount_point_answer = λ h p. (true, none);
  mount_answer = λ h a b o. none;
  unmount_answer = λ h p. none;
  open_write_answer = λ h p. none;
  encode_answer = λ h vs. true;
  read_file_answer = λ h p. none;
  remove_answer = λ h p. none;
  listen_answer = λ h p a. none;
  write_text_answer = λ h p a. none;
  close_answer = λ h p. none;
  graceful_stop_returns = λ h. true;
  hard_stop_returns = λ h. true;
  uuid_answer = λ h. "u1";
  now_answer = λ h. record { seconds = pos 0; nanos = pos 0 };
  pid = 1305;
  range_volumes = λ h vs. vs;
  range_snapshots = λ h snaps. snaps;
  url_is_valid = λ u. true;
  query_escape = λ s. s;
  md5_hex = λ s. s;
  find_string = λ p s. some "Target 1: iqn.2017-10-30.kx.flexcsi-a1";
  unmarshal_clusters = λ s. [];
  unmarshal_pools = λ s. [];
  unmarshal_ser_clusters = λ s. [];
  unmarshal_volumes = λ s. [];
  unmarshal_targets = λ s. [];
  unmarshal_luns = λ s. [];
  decode_volumes = λ s vs. vs;
}

abbrev pub a1 : Volume
a1 = record {
  vol_name = "pvc-a1";
  vol_id = "a1";
  vol_size = pos 1048576;
  vol_path = "/csi-flexblock-data-dir/a1";
  vol_access_type = mount_access;
  parent_vol_id = "";
  parent_snap_id = "";
  ephemeral = false;
}

abbrev pub fresh_state : Globals
fresh_state = record { volumes = []; snapshots = []; confinfo = []; calls = [] }

abbrev pub one_volume : Globals
one_volume = record { volumes = ("a1", a1) ∷ []; snapshots = []; confinfo = []; calls = [] }

abbrev pub controller : ControllerServer
controller = record { caps = create_delete_volume ∷ []; node_id = "node1" }

abbrev pub create_request : CreateVolumeRequest
create_request = record {
  name = "pvc-a1";
  volume_capabilities = some (mount_volume ∷ []);
  capacity_range = some (pos 1048576);
  parameters = [];
  volume_content_source = none;
}

abbrev pub node : NodeServer
node = record { node_id = "node1"; ephemeral = false; max_volumes_per_node = pos 0 }

abbrev pub clone_request : CreateVolumeRequest
clone_request = record {
  name = "pvc-b2";
  volume_capabilities = some (mount_volume ∷ []);
  capacity_range = some (pos 2097152);
  parameters = [];
  volume_content_source = some (volume_source (some "a1"));
}

abbrev pub servers : Servers
servers = record {
  ids = record { name = "flexblock.csi.k8s.io"; version = "dev" };
  ns = node;
  cs = controller;
}
