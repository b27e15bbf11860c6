-- ===== src/Driver/Delete.antt =====
-- pkg/flexblock/flexblock.go: deleteFlexblockVolume.
use csi_driver_flexblock.Prelude.Int.{pos, eq_ℤ}
use csi_driver_flexblock.Remote.Volumes.{delete_vol}
use csi_driver_flexblock.Prelude.Decimal.{show}
use csi_driver_flexblock.Prelude.Text.{contains, base_name, ◌<>◌}
use csi_driver_flexblock.Paths.{get_volume_path}
use csi_driver_flexblock.Sys.{remove_all, run, read_link, read_dir}
use csi_driver_flexblock.Store.{save_existing_vol, drop_volume}
use csi_driver_flexblock.Driver.Disk.{
  remote_iqn, find_device, tid_of_match, storage_ips, local_iqn, checked,
}
use csi_driver_flexblock.Remote.Cluster.{get_cluster_id, Ids}
use csi_driver_flexblock.Volume.{mount_access, lookup, AccessType}
use csi_driver_flexblock.Go.{
  gets, os_error, raise, status, internal, crash, wrap, require, ◌>>=◌, pure, maybe, ◌>>◌, Go,
}
use csi_driver_flexblock.Env.{not_exist, OsError, Env}
use csi_driver_flexblock.Prelude.{
  ◌=ₛ◌, not, if◌then◌else◌, String, Option, none, some, List, [], ◌∷◌,
}

-- os.RemoveAll's error, unless os.IsNotExist
abbrev pub unless_missing : Option OsError → Option OsError
unless_missing none = none
unless_missing (some not_exist) = none
unless_missing (some e) = some e

module _ (env : Env) where
  -- the target that the regular expression finds is deleted
  unfoldable pub delete_target : String → Go (Unit {0})
  delete_target meid = maybe (tid_of_match meid) crash λ tid. do
    checked env
        ("tgtadm" ∷ "-L" ∷ "iscsi" ∷ "-m" ∷ "target" ∷ "-o" ∷ "delete" ∷ "-t" ∷ show tid ∷ [])
    checked env ("nc3kxtarget" ∷ "--dump" ∷ [])

  -- storclusterid == 0
  unfoldable pub delete_local : String → Go (Unit {0})
  delete_local vol_id = do
    checked env ("iscsiadm" ∷ "-m" ∷ "node" ∷ "-T" ∷ local_iqn vol_id ∷ "-u" ∷ [])
    checked env (
        "iscsiadm"
        ∷ "-m"
        ∷ "discoverydb"
        ∷ "-n"
        ∷ local_iqn vol_id
        ∷ "-o"
        ∷ "delete"
        ∷ "-t"
        ∷ "st"
        ∷ "-p"
        ∷ "127.0.0.1"
        ∷ [])
    shown ← run env ("tgtadm" ∷ "-m" ∷ "target" ∷ "-o" ∷ "show" ∷ [])
    require (not shown.failed) (status internal)
    require (contains shown.text (local_iqn vol_id)) (status internal)
    (maybe (env.find_string ("Target [\\d]+: " <> local_iqn vol_id) shown.text) crash delete_target)
    checked env ("xioadm" ∷ "vdi" ∷ "delete" ∷ vol_id ∷ [])

  -- the loop over /dev/mapper/
  unfoldable pub remove_mappers : String → List String → Go (Unit {0})
  remove_mappers dm_name [] = pure tt
  remove_mappers dm_name (f ∷ fs) = do
    link ← read_link env ("/dev/mapper/" <> f)
    (maybe link (pure tt) λ l.
        if dm_name =ₛ base_name "/" l
        then (do out ← run env ("dmsetup" ∷ "remove" ∷ f ∷ "--force" ∷ []); pure tt)
        else pure tt)
    remove_mappers dm_name fs

  unfoldable pub remove_holder : List String → Go (Unit {0})
  remove_holder [] = pure tt
  remove_holder (h ∷ hs) = do files ← read_dir env "/dev/mapper/"; remove_mappers h files

  -- the loop over the addresses of the storage, whose errors are not looked at
  unfoldable pub forget_all : String → List String → Go (Unit {0})
  forget_all iqn [] = pure tt
  forget_all iqn (ip ∷ ips) = do
    out ← run env (
        "iscsiadm" ∷ "-m" ∷ "discoverydb" ∷ "-n" ∷ iqn ∷ "-o" ∷ "delete" ∷ "-t" ∷ "st" ∷ "-p" ∷ ip
        ∷ [])
    forget_all iqn ips

  unfoldable pub delete_remote : Ids → String → Go (Unit {0})
  delete_remote ids vol_id = do
    ips ← storage_ips
    device ← find_device env (remote_iqn vol_id) "/dev/" ips
    remove_holder device.1
    out ← run env ("iscsiadm" ∷ "-m" ∷ "node" ∷ "-T" ∷ remote_iqn vol_id ∷ "-u" ∷ [])
    forget_all (remote_iqn vol_id) ips
    wrap internal (delete_vol env ids.0 ids.1 vol_id)

  unfoldable pub unmount_volume : AccessType → String → Go (Unit {0})
  unmount_volume mount_access path = checked env ("umount" ∷ path ∷ [])
  unmount_volume _ path = pure tt

  -- all that stands before the map is written
  unfoldable pub tear_down : String → AccessType → Go (Unit {0})
  tear_down vol_id access = do
    unmount_volume access (get_volume_path vol_id)
    ids ← wrap internal (get_cluster_id env)
    (if eq_ℤ ids.0 (pos 0) then delete_local vol_id else delete_remote ids vol_id)
    removed ← remove_all env (get_volume_path vol_id)
    maybe (unless_missing removed) (pure tt) λ e. raise (os_error e)

  unfoldable pub delete_and_store : String → AccessType → Go (Unit {0})
  delete_and_store vol_id access = do
    tear_down vol_id access
    drop_volume vol_id
    save_existing_vol env

  -- deleteFlexblockVolume: an id that is not in the map is deleted already
  unfoldable pub delete_flexblock_volume : String → Go (Unit {0})
  delete_flexblock_volume vol_id = do
    found ← gets (λ s. lookup vol_id s.volumes)
    maybe found (pure tt) λ vol. delete_and_store vol_id vol.vol_access_type
