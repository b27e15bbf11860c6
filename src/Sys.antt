-- ===== src/Sys.antt =====
-- The calls that the driver makes, as functions that note the call and take its answer.
pub mod Frame
use csi_driver_flexblock.Volume.{Timestamp}
use csi_driver_flexblock.Env.{LogLine}
use csi_driver_flexblock.Prelude.{
  if◌then◌else◌, ℕ, String, Bool, Option, none, some, List, ◌∷◌, [], refl,
}
use csi_driver_flexblock.Volume.{Volumes}
use csi_driver_flexblock.Env.{Env, Globals, Call, Request, Response, Output, OsError, FileMode}
use csi_driver_flexblock.Go.{pending, Result, ok, Go}

note : Call → Globals → Globals
note c s = record s { calls = c ∷ s.calls }

module _ (env : Env) where
  -- executor.Command(args[0], args[1:]...).CombinedOutput()
  unfoldable pub run : List String → Go Output
  unfolding note
  run a s = (ok (env.run_answer s.calls a), note (Call.run a) s)

  -- client.Do(req)
  unfoldable pub send : Request → Go (Option Response)
  unfolding note
  send a s = (ok (env.send_answer s.calls a), note (Call.send a) s)

  unfoldable pub mkdir_all : String → Go (Option OsError)
  unfolding note
  mkdir_all a s = (ok (env.mkdir_all_answer s.calls a), note (Call.mkdir_all a) s)

  unfoldable pub remove_all : String → Go (Option OsError)
  unfolding note
  remove_all a s = (ok (env.remove_all_answer s.calls a), note (Call.remove_all a) s)

  -- ioutil.ReadDir, whose error the source only logs: no names then
  unfoldable pub read_dir : String → Go (List String)
  unfolding note
  read_dir a s = (ok (env.read_dir_answer s.calls a), note (Call.read_dir a) s)

  -- os.Readlink, `none` for an error
  unfoldable pub read_link : String → Go (Option String)
  unfolding note
  read_link a s = (ok (env.read_link_answer s.calls a), note (Call.read_link a) s)

  -- os.Open and Readdir(1): whether the directory is empty, `none` for an error
  unfoldable pub read_one : String → Go (Option Bool)
  unfolding note
  read_one a s = (ok (env.read_one_answer s.calls a), note (Call.read_one a) s)

  unfoldable pub lstat : String → Go (Option OsError)
  unfolding note
  lstat a s = (ok (env.lstat_answer s.calls a), note (Call.lstat a) s)

  unfoldable pub stat : String → Go (Option FileMode)
  unfolding note
  stat a s = (ok (env.stat_answer s.calls a), note (Call.stat a) s)

  unfoldable pub make_file : String → Go (Option OsError)
  unfolding note
  make_file a s = (ok (env.make_file_answer s.calls a), note (Call.make_file a) s)

  -- mount.IsNotMountPoint of k8s.io/utils
  unfoldable pub is_not_mount_point : String → Go (Bool × Option OsError)
  unfolding note
  is_not_mount_point a s =
      (ok (env.is_not_mount_point_answer s.calls a), note (Call.is_mount_point a) s)

  unfoldable pub mount : String → String → List String → Go (Option OsError)
  unfolding note
  mount a b c s = (ok (env.mount_answer s.calls a b c), note (Call.mount a b c) s)

  unfoldable pub unmount : String → Go (Option OsError)
  unfolding note
  unmount a s = (ok (env.unmount_answer s.calls a), note (Call.unmount a) s)

  unfoldable pub open_write : String → Go (Option OsError)
  unfolding note
  open_write a s = (ok (env.open_write_answer s.calls a), note (Call.open_write a) s)

  unfoldable pub read_file : String → Go (Option String)
  unfolding note
  read_file a s = (ok (env.read_file_answer s.calls a), note (Call.read_file a) s)

  -- os.Remove
  unfoldable pub remove : String → Go (Option OsError)
  unfolding note
  remove a s = (ok (env.remove_answer s.calls a), note (Call.remove a) s)

  -- net.Listen
  unfoldable pub listen : String → String → Go (Option OsError)
  unfolding note
  listen a b s = (ok (env.listen_answer s.calls a b), note (Call.listen a b) s)

  -- fmt.Fprintf into an open file
  unfoldable pub write_text : String → String → Go (Option OsError)
  unfolding note
  write_text a b s = (ok (env.write_text_answer s.calls a b), note (Call.write_text a b) s)

  unfoldable pub close_file : String → Go (Option OsError)
  unfolding note
  close_file a s = (ok (env.close_answer s.calls a), note (Call.close_file a) s)

  -- uuid.NewUUID().String()
  unfoldable pub new_uuid : Go String
  unfolding note
  new_uuid s = (ok (env.uuid_answer s.calls), note Call.new_uuid s)

  -- ptypes.TimestampNow()
  unfoldable pub now : Go Timestamp
  unfolding note
  now s = (ok (env.now_answer s.calls), note Call.now s)

-- standard output or error
unfoldable pub print : String → Go (Unit {0})
unfolding note
print text s = (ok tt, note (Call.print text) s)

-- glog, in logGRPC
unfoldable pub log : LogLine → Go (Unit {0})
unfolding note
log line s = (ok tt, note (Call.log line) s)

-- time.Sleep, in seconds
unfoldable pub sleep : ℕ → Go (Unit {0})
unfolding note
sleep n s = (ok tt, note (Call.sleep n) s)

module _ (env : Env) where
  -- encoder.Encode(flexBlockVolumes), whose error the source only logs
  unfoldable pub write_volumes : Go (Unit {0})
  unfolding note
  write_volumes s = (
    ok tt,
    note
        (if env.encode_answer s.calls s.volumes
          then Call.write_volumes s.volumes
          else Call.write_failed s.volumes)
        s,
  )

  -- the two ways to stop a grpc.Server, which may not come back
  unfoldable pub graceful_stop : Go (Unit {0})
  unfolding note
  graceful_stop s =
      (if env.graceful_stop_returns s.calls then ok tt else pending, note Call.graceful_stop s)

  unfoldable pub hard_stop : Go (Unit {0})
  unfolding note
  hard_stop s = (if env.hard_stop_returns s.calls then ok tt else pending, note Call.hard_stop s)
