-- ===== src/Sys/Frame.antt =====
-- No call to the outside changes the maps of volumes and snapshots, or the file of the volumes.
use csi_driver_flexblock.Prelude.{ℕ, String, List, refl}
use csi_driver_flexblock.Env.{LogLine, Env, Request, last_written}
use csi_driver_flexblock.Go.Frame.{Frame}
use csi_driver_flexblock.Sys.{
  log, remove, write_text, close_file, print, listen, run, send, mkdir_all, remove_all, read_dir,
  read_link, read_one, lstat, stat, make_file, is_not_mount_point, mount, unmount, open_write,
  read_file, sleep,
}

module _ (env : Env) where
  pub Frame-run : (a : List String) → Frame (run env a)
  unfolding run last_written
  Frame-run a = record { volumes = λ s. refl; snapshots = λ s. refl; written = λ s. refl }

  pub Frame-send : (a : Request) → Frame (send env a)
  unfolding send last_written
  Frame-send a = record { volumes = λ s. refl; snapshots = λ s. refl; written = λ s. refl }

  pub Frame-mkdir_all : (a : String) → Frame (mkdir_all env a)
  unfolding mkdir_all last_written
  Frame-mkdir_all a = record { volumes = λ s. refl; snapshots = λ s. refl; written = λ s. refl }

  pub Frame-remove_all : (a : String) → Frame (remove_all env a)
  unfolding remove_all last_written
  Frame-remove_all a = record { volumes = λ s. refl; snapshots = λ s. refl; written = λ s. refl }

  pub Frame-read_dir : (a : String) → Frame (read_dir env a)
  unfolding read_dir last_written
  Frame-read_dir a = record { volumes = λ s. refl; snapshots = λ s. refl; written = λ s. refl }

  pub Frame-read_link : (a : String) → Frame (read_link env a)
  unfolding read_link last_written
  Frame-read_link a = record { volumes = λ s. refl; snapshots = λ s. refl; written = λ s. refl }

  pub Frame-read_one : (a : String) → Frame (read_one env a)
  unfolding read_one last_written
  Frame-read_one a = record { volumes = λ s. refl; snapshots = λ s. refl; written = λ s. refl }

  pub Frame-lstat : (a : String) → Frame (lstat env a)
  unfolding lstat last_written
  Frame-lstat a = record { volumes = λ s. refl; snapshots = λ s. refl; written = λ s. refl }

  pub Frame-stat : (a : String) → Frame (stat env a)
  unfolding stat last_written
  Frame-stat a = record { volumes = λ s. refl; snapshots = λ s. refl; written = λ s. refl }

  pub Frame-make_file : (a : String) → Frame (make_file env a)
  unfolding make_file last_written
  Frame-make_file a = record { volumes = λ s. refl; snapshots = λ s. refl; written = λ s. refl }

  pub Frame-is_not_mount_point : (a : String) → Frame (is_not_mount_point env a)
  unfolding is_not_mount_point last_written
  Frame-is_not_mount_point a = record {
    volumes = λ s. refl;
    snapshots = λ s. refl;
    written = λ s. refl;
  }

  pub Frame-mount : (a : String) (b : String) (c : List String) → Frame (mount env a b c)
  unfolding mount last_written
  Frame-mount a b c = record { volumes = λ s. refl; snapshots = λ s. refl; written = λ s. refl }

  pub Frame-unmount : (a : String) → Frame (unmount env a)
  unfolding unmount last_written
  Frame-unmount a = record { volumes = λ s. refl; snapshots = λ s. refl; written = λ s. refl }

  pub Frame-open_write : (a : String) → Frame (open_write env a)
  unfolding open_write last_written
  Frame-open_write a = record { volumes = λ s. refl; snapshots = λ s. refl; written = λ s. refl }

  pub Frame-read_file : (a : String) → Frame (read_file env a)
  unfolding read_file last_written
  Frame-read_file a = record { volumes = λ s. refl; snapshots = λ s. refl; written = λ s. refl }

  pub Frame-remove : (a : String) → Frame (remove env a)
  unfolding remove last_written
  Frame-remove a = record { volumes = λ s. refl; snapshots = λ s. refl; written = λ s. refl }

  pub Frame-listen : (a b : String) → Frame (listen env a b)
  unfolding listen last_written
  Frame-listen a b = record { volumes = λ s. refl; snapshots = λ s. refl; written = λ s. refl }

  pub Frame-write_text : (a b : String) → Frame (write_text env a b)
  unfolding write_text last_written
  Frame-write_text a b = record { volumes = λ s. refl; snapshots = λ s. refl; written = λ s. refl }

  pub Frame-close_file : (a : String) → Frame (close_file env a)
  unfolding close_file last_written
  Frame-close_file a = record { volumes = λ s. refl; snapshots = λ s. refl; written = λ s. refl }

pub Frame-print : (text : String) → Frame (print text)
unfolding print last_written
Frame-print text = record { volumes = λ s. refl; snapshots = λ s. refl; written = λ s. refl }

pub Frame-log : (line : LogLine) → Frame (log line)
unfolding log last_written
Frame-log line = record { volumes = λ s. refl; snapshots = λ s. refl; written = λ s. refl }

pub Frame-sleep : (n : ℕ) → Frame (sleep n)
unfolding sleep last_written
Frame-sleep n = record { volumes = λ s. refl; snapshots = λ s. refl; written = λ s. refl }

pub ruleset frame_calls = (
  Frame-run, Frame-send, Frame-mkdir_all, Frame-remove_all, Frame-read_dir, Frame-read_link,
  Frame-read_one, Frame-lstat, Frame-stat, Frame-make_file, Frame-is_not_mount_point, Frame-mount,
  Frame-unmount, Frame-open_write, Frame-read_file, Frame-sleep,
)
