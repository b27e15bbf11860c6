-- ===== src/Driver/Create.antt =====
-- pkg/flexblock/flexblock.go: createFlexblockVolume.
use csi_driver_flexblock.Prelude.Decimal.{show_ℤ}
use csi_driver_flexblock.Sys.{sleep, mkdir_all, run}
use csi_driver_flexblock.Paths.{get_volume_path}
use csi_driver_flexblock.Remote.Target.{create_target}
use csi_driver_flexblock.Driver.Disk.{
  local_disk, next_tid, find_device, remote_iqn, local_iqn, storage_ips, size_in_mib, checked,
}
use csi_driver_flexblock.Store.{save_existing_vol, put_volume}
use csi_driver_flexblock.Remote.Volumes.{create_vol}
use csi_driver_flexblock.Prelude.Text.{contains, ◌<>◌}
use csi_driver_flexblock.Volume.{block_access, mount_access, other_access, Volume, AccessType}
use csi_driver_flexblock.Go.{
  crash, plain, status, os_error, raise, require, maybe, internal, wrap, ◌>>◌, ◌>>=◌, pure, Go,
}
use csi_driver_flexblock.Remote.Cluster.{get_cluster_id, Ids}
use csi_driver_flexblock.Prelude.Int.{pos, eq_ℤ, ℤ}
use csi_driver_flexblock.Env.{Env}
use csi_driver_flexblock.Prelude.{
  ◌||◌, not, if◌then◌else◌, ℕ, String, Bool, true, false, List, [], ◌∷◌,
}

-- More than one address for a device that no multipath device holds is an error.
abbrev pub has_no_pool : List String → List String → Bool
has_no_pool [] (a ∷ b ∷ ips) = true
has_no_pool _ _ = false

-- /dev/ and the first holder, or the device itself
abbrev pub held_path : String × List String → String
held_path (path, []) = path
held_path (path, h ∷ hs) = "/dev/" <> h

unfoldable pub new_volume : String → String → ℤ → AccessType → Bool → String → Volume
new_volume vol_id name capacity access ephemeral path = record {
  vol_name = name;
  vol_id = vol_id;
  vol_size = capacity;
  vol_path = path;
  vol_access_type = access;
  parent_vol_id = "";
  parent_snap_id = "";
  ephemeral = ephemeral;
}

module _ (env : Env) where
  -- the commands that make the target of a new volume, and log in to it
  unfoldable pub make_target : String → String → Go (Unit {0})
  make_target vol_id tid = do
    checked env (
        "tgtadm"
        ∷ "-L"
        ∷ "iscsi"
        ∷ "-m"
        ∷ "target"
        ∷ "-o"
        ∷ "new"
        ∷ "-t"
        ∷ tid
        ∷ "-T"
        ∷ local_iqn vol_id
        ∷ [])
    checked env (
        "tgtadm"
        ∷ "-m"
        ∷ "lu"
        ∷ "-o"
        ∷ "new"
        ∷ "-t"
        ∷ tid
        ∷ "-l"
        ∷ "1"
        ∷ "-E"
        ∷ "flexblock"
        ∷ "-b"
        ∷ ("unix:///var/lib/flex/7000/sock:" <> vol_id)
        ∷ [])
    checked env (
        "tgtadm" ∷ "-L" ∷ "iscsi" ∷ "-o" ∷ "bind" ∷ "-m" ∷ "target" ∷ "-t" ∷ tid ∷ "-I"
        ∷ "127.0.0.1" ∷ [])
    checked env ("nc3kxtarget" ∷ "--dump" ∷ [])
    checked env ("iscsiadm" ∷ "-m" ∷ "discovery" ∷ "-t" ∷ "st" ∷ "-p" ∷ "127.0.0.1" ∷ [])
    checked env
        ("iscsiadm" ∷ "-m" ∷ "node" ∷ "-T" ∷ local_iqn vol_id ∷ "-p" ∷ "127.0.0.1" ∷ "-l" ∷ [])

  -- storclusterid == 0: the device of the new volume
  unfoldable pub create_local : String → ℤ → Go String
  create_local vol_id capacity = do
    made ← run env ("xioadm" ∷ "vdi" ∷ "create" ∷ vol_id ∷ size_in_mib capacity ∷ [])
    require (not made.failed || contains made.text "VDI exists already") (status internal)
    shown ← run env ("tgtadm" ∷ "-m" ∷ "target" ∷ "-o" ∷ "show" ∷ [])
    require (not shown.failed) (status internal)
    require (not (contains shown.text (local_iqn vol_id))) (status internal)
    (maybe (next_tid shown.text) crash λ tid. make_target vol_id (show_ℤ tid))
    pure (local_disk vol_id)

  -- the loop over the addresses of the storage
  unfoldable pub login_all : String → List String → Go (Unit {0})
  login_all iqn [] = pure tt
  login_all iqn (ip ∷ ips) = do
    checked env ("iscsiadm" ∷ "-m" ∷ "discovery" ∷ "-t" ∷ "st" ∷ "-p" ∷ ip ∷ [])
    checked env ("iscsiadm" ∷ "-m" ∷ "node" ∷ "-T" ∷ iqn ∷ "-p" ∷ ip ∷ "-l" ∷ [])
    login_all iqn ips

  -- createTarget is called only for a volume that has no target.
  unfoldable pub ensure_target : ℕ → Ids → String → ℤ × ℤ → Go (Unit {0})
  ensure_target fuel ids vol_id vol =
      if eq_ℤ vol.1 (pos 0)
      then (do target ← create_target env fuel ids.0 ids.2 vol_id vol.0; pure tt)
      else pure tt

  unfoldable pub create_remote : ℕ → Ids → String → ℤ → Go String
  create_remote fuel ids vol_id capacity = do
    vol ← create_vol env ids.0 ids.1 vol_id capacity
    ensure_target fuel ids vol_id vol
    ips ← storage_ips
    login_all (remote_iqn vol_id) ips
    device ← find_device env (remote_iqn vol_id) "/dev" ips
    require (not (has_no_pool device.1 ips)) (status internal)
    pure (held_path device)

  -- the switch on the access type: the path that the volume is kept under
  unfoldable pub format : AccessType → String → String → Go String
  format mount_access disk path = do
    made ← mkdir_all env path
    (maybe made (pure tt) λ e. raise (os_error e))
    sleep 5
    checked env ("mkfs.ext4" ∷ disk ∷ "-F" ∷ [])
    checked env ("mount" ∷ "-t" ∷ "ext4" ∷ disk ∷ path ∷ [])
    pure path
  format block_access disk path = pure disk
  format (other_access n) disk path = raise plain

  -- all that stands before the volume is registered
  unfoldable pub prepare : ℕ → String → ℤ → AccessType → Go String
  prepare fuel vol_id capacity access = do
    ids ← wrap internal (get_cluster_id env)
    disk ←
        (if eq_ℤ ids.0 (pos 0)
          then create_local vol_id capacity
          else create_remote fuel ids vol_id capacity)
    format access disk (get_volume_path vol_id)

  -- createFlexblockVolume
  unfoldable pub create_flexblock_volume : ℕ → String → String → ℤ → AccessType → Bool → Go Volume
  create_flexblock_volume fuel vol_id name capacity access ephemeral = do
    path ← prepare fuel vol_id capacity access
    let vol = new_volume vol_id name capacity access ephemeral path
    put_volume vol_id vol
    save_existing_vol env
    pure vol
