-- ===== src/Env.antt =====
-- What lies outside the driver: the commands that it runs, the storage management server, the
-- file system, the mount library. A `Call` is one request to it; its answer may depend on all the
-- calls before it. `Globals` is the driver's state with the calls made so far, the newest first.
use csi_driver_flexblock.Prelude.{ℕ, String, Bool, Option, none, some, List, [], ◌∷◌}
use csi_driver_flexblock.Prelude.Int.{ℤ}
use csi_driver_flexblock.Volume.{Volumes, Snapshots, Timestamp}

pub record Request : Type 0 where
  pub method : String
  pub url : String
  pub content_type : String
  pub token : Option String
  pub body : String

pub record Response : Type 0 where
  pub status_code : ℕ
  pub auth_token : String
  pub body : String

-- CombinedOutput of a command: its text, and whether `err` is set
pub record Output : Type 0 where
  pub text : String
  pub failed : Bool

-- what os.IsNotExist and os.IsExist tell apart
pub data OsError : Type 0 where
  not_exist exist other : OsError

pub data FileMode : Type 0 where
  directory device regular : FileMode

-- the lines that logGRPC writes, without the messages in them
pub data LogLine : Type 0 where
  grpc_call : String → LogLine
  grpc_request grpc_response grpc_error : LogLine

pub data Call : Type 0 where
  run : List String → Call
  send : Request → Call
  mkdir_all : String → Call
  remove_all : String → Call
  read_dir : String → Call
  read_link : String → Call
  read_one : String → Call
  lstat : String → Call
  stat : String → Call
  make_file : String → Call
  is_mount_point : String → Call
  mount : String → String → List String → Call
  unmount : String → Call
  open_write : String → Call
  -- the map is encoded to the file that was opened: it is written, or Encode returns an error
  write_volumes write_failed : Volumes → Call
  read_file : String → Call
  sleep : ℕ → Call
  remove : String → Call
  listen : String → String → Call
  write_text : String → String → Call
  close_file : String → Call
  print : String → Call
  log : LogLine → Call
  new_uuid : Call
  now : Call
  -- (*grpc.Server).GracefulStop and Stop
  graceful_stop hard_stop : Call

abbrev pub History : Type 0
History = List Call

-- The volumes that the file which keeps them was last written with: none behind a write that has failed, since the
-- file was cut to nothing when it was opened.
unfoldable pub last_written : History → Option Volumes
last_written [] = none
last_written (Call.write_volumes vs ∷ calls) = some vs
last_written (Call.write_failed vs ∷ calls) = none
last_written (c ∷ calls) = last_written calls

pub record Globals : Type 0 where
  pub volumes : Volumes
  pub snapshots : Snapshots
  pub confinfo : List (String × String)
  pub calls : History

-- The JSON objects of the management server, with the fields that the driver reads.
pub record ClusterInfo : Type 0 where
  pub cluster_id : ℤ

pub record PoolInfo : Type 0 where
  pub block_pool_id : ℤ
  pub pool_name : String

pub record SerClusterInfo : Type 0 where
  pub ser_cluster_id : ℤ
  pub cluster_name : String

pub record VolInfo : Type 0 where
  pub volume_id : ℤ
  pub cluster_id : ℤ
  pub volume_name : String
  pub pool_id : ℤ
  pub target_id : ℤ

pub record TidInfo : Type 0 where
  pub id : ℤ
  pub cluster_id : ℤ
  pub access_flag : String
  pub ser_cluster_name : String

pub record LunInfo : Type 0 where
  pub volume_id : ℤ
  pub volume_name : String
  pub operating_status : String

-- What each kind of call is answered with, `none` for a nil error. The fields with no history are
-- functions of packages: encoding/json's `Unmarshal` (what it leaves in the struct, its error
-- ignored as the source does), crypto/md5 with encoding/hex, net/url, regexp.
pub record Env : Type 0 where
  pub run_answer : History → List String → Output
  pub send_answer : History → Request → Option Response
  pub mkdir_all_answer : History → String → Option OsError
  pub remove_all_answer : History → String → Option OsError
  pub read_dir_answer : History → String → List String
  pub read_link_answer : History → String → Option String
  pub read_one_answer : History → String → Option Bool
  pub lstat_answer : History → String → Option OsError
  pub stat_answer : History → String → Option FileMode
  pub make_file_answer : History → String → Option OsError
  pub is_not_mount_point_answer : History → String → Bool × Option OsError
  pub mount_answer : History → String → String → List String → Option OsError
  pub unmount_answer : History → String → Option OsError
  pub open_write_answer : History → String → Option OsError
  -- whether the encoder has written the map to the file
  pub encode_answer : History → Volumes → Bool
  pub read_file_answer : History → String → Option String
  pub remove_answer : History → String → Option OsError
  pub listen_answer : History → String → String → Option OsError
  pub write_text_answer : History → String → String → Option OsError
  pub close_answer : History → String → Option OsError
  -- whether GracefulStop and Stop of grpc come back, which wait for the connections
  pub graceful_stop_returns : History → Bool
  pub hard_stop_returns : History → Bool
  pub uuid_answer : History → String
  pub now_answer : History → Timestamp
  pub pid : ℕ
  -- the order in which `range` walks a map
  pub range_volumes : History → Volumes → Volumes
  pub range_snapshots : History → Snapshots → Snapshots
  pub url_is_valid : String → Bool
  pub query_escape : String → String
  pub md5_hex : String → String
  -- regexp.MustCompile(p).FindString(s), `none` where the pattern does not compile
  pub find_string : String → String → Option String
  pub unmarshal_clusters : String → List ClusterInfo
  pub unmarshal_pools : String → List PoolInfo
  pub unmarshal_ser_clusters : String → List SerClusterInfo
  pub unmarshal_volumes : String → List VolInfo
  pub unmarshal_targets : String → List TidInfo
  pub unmarshal_luns : String → List LunInfo
  -- json.Decoder into flexBlockVolumes: the map as it leaves it, an error included
  pub decode_volumes : String → Volumes → Volumes
