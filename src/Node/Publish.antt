-- ===== src/Node/Publish.antt =====
-- pkg/flexblock/nodeserver.go: NodePublishVolume.
use csi_driver_flexblock.Prelude.Text.{◌<>◌}
use csi_driver_flexblock.Driver.Create.{create_flexblock_volume}
use csi_driver_flexblock.Paths.{get_volume_path}
use csi_driver_flexblock.Store.{get_volume_by_id, is_not_exist}
use csi_driver_flexblock.Sys.{
  sleep, mkdir_all, make_file, remove_all, lstat, mount, is_not_mount_point,
}
use csi_driver_flexblock.Driver.Disk.{local_disk, local_iqn, checked}
use csi_driver_flexblock.Csi.{no_access, mount_volume, block_volume, Access, NodePublishRequest}
use csi_driver_flexblock.Volume.{
  mount_access, max_storage_capacity, is_block, is_mount, value_of, Volume,
}
use csi_driver_flexblock.Go.{
  not_found, wrap, invalid_argument, internal, crash, status, raise, pure, says_exist, require,
  ◌>>=◌, maybe, catch, ◌>>◌, Go,
}
use csi_driver_flexblock.Node.{NodeServer}
use csi_driver_flexblock.Env.{exist, not_exist, Env, OsError}
use csi_driver_flexblock.Prelude.{
  true, ◌&&◌, not, is_some, ◌||◌, ◌=ₛ◌, ℕ, if◌then◌else◌, String, Bool, Option, none, some, List,
  [], ◌∷◌,
}

-- whether the volume is to be made here
unfoldable pub wants_ephemeral : NodeServer → NodePublishRequest → Bool
wants_ephemeral ns req =
    let mark = value_of "csi.storage.k8s.io/ephemeral" req.volume_context in
    (mark =ₛ "true") || ((mark =ₛ "") && ns.ephemeral)

-- `some e` for an error other than os.IsNotExist
abbrev pub real_error : Option OsError → Option OsError
real_error none = none
real_error (some not_exist) = none
real_error (some e) = some e

-- makeFile's error: os.IsExist is none
abbrev pub unless_exist : Option OsError → Option OsError
unless_exist none = none
unless_exist (some exist) = none
unless_exist (some e) = some e

abbrev pub bind_options : Bool → List String
bind_options readonly = if readonly then "bind" ∷ "ro" ∷ [] else "bind" ∷ []

-- an error of the operating system, as codes.Internal
unfoldable pub no_error : Option OsError → Go (Unit {0})
no_error e = maybe e (pure tt) λ _. raise (status internal)

module _ (env : Env) where
  -- The target of a block volume is a file, made if it is not there.
  unfoldable pub ensure_file : String → Go (Unit {0})
  ensure_file target = do
    there ← lstat env target
    if is_not_exist there
        then (do made ← make_file env target; no_error (unless_exist made))
        else no_error there

  unfoldable pub publish_block : Volume → String → Go (Unit {0})
  publish_block vol target = do
    require (is_block vol.vol_access_type) (status invalid_argument)
    ensure_file target
    state ← is_not_mount_point env target
    no_error (real_error state.1)
    if state.0 || is_some state.1
        then (do mounted ← mount env vol.vol_path target ("bind" ∷ []); no_error mounted)
        else pure tt

  -- The target of a mount is a directory: whether it is not a mount point yet.
  unfoldable pub ensure_directory : String → Go Bool
  ensure_directory target = do
    state ← is_not_mount_point env target
    no_error (real_error state.1)
    if is_some state.1
        then (do made ← mkdir_all env target; no_error made; pure true)
        else pure state.0

  -- the volume's own directory is not mounted: the device is logged in to and mounted on the target
  unfoldable pub mount_device : String → String → Go (Unit {0})
  mount_device volume_id target = do
    checked env ("iscsiadm" ∷ "-m" ∷ "discovery" ∷ "-t" ∷ "st" ∷ "-p" ∷ "127.0.0.1" ∷ [])
    checked env
        ("iscsiadm" ∷ "-m" ∷ "node" ∷ "-T" ∷ local_iqn volume_id ∷ "-p" ∷ "127.0.0.1" ∷ "-l" ∷ [])
    checked env
        ("iscsiadm" ∷ "-m" ∷ "node" ∷ "-T" ∷ local_iqn volume_id ∷ "-p" ∷ "127.0.0.1" ∷ "-R" ∷ [])
    sleep 5
    checked env ("mount" ∷ "-t" ∷ "ext4" ∷ local_disk volume_id ∷ target ∷ [])

  -- The directory of an ephemeral volume that cannot be mounted is removed.
  unfoldable pub bind_directory : Volume → String → String → Bool → Go (Unit {0})
  bind_directory vol path target readonly = do
    mounted ← mount env path target (bind_options readonly)
    maybe mounted (pure tt) λ e.
        if vol.ephemeral
        then (do ignored ← remove_all env path; raise (status internal))
        else raise (status internal)

  -- The error of the second test is compared by a variable that is nil there: it has no effect.
  unfoldable pub publish_mount : Volume → NodePublishRequest → Go (Unit {0})
  publish_mount vol req = do
    require (is_mount vol.vol_access_type) (status invalid_argument)
    not_mounted ← ensure_directory req.target_path
    if not_mounted
        then (do
          state ← is_not_mount_point env (get_volume_path req.volume_id)
          if state.0
              then mount_device req.volume_id req.target_path
              else bind_directory vol (get_volume_path req.volume_id) req.target_path req.readonly)
        else pure tt

  unfoldable pub publish_volume : NodePublishRequest → Access → Volume → Go (Unit {0})
  publish_volume req block_volume vol = publish_block vol req.target_path
  publish_volume req mount_volume vol = publish_mount vol req
  publish_volume req no_access vol = pure tt

  -- With os.IsExist the source goes on with a nil volume, and dereferences it.
  unfoldable pub create_ephemeral : ℕ → String → Go (Unit {0})
  create_ephemeral fuel volume_id =
      catch (λ e. if says_exist e then crash else raise (status internal))
        (do
          vol ←
              create_flexblock_volume env fuel volume_id ("ephemeral-" <> volume_id)
                max_storage_capacity mount_access true
          pure tt)

  -- NodePublishVolume, of a request with a capability, which is a oneof: never both block and mount
  unfoldable pub publish_checked : ℕ → NodeServer → NodePublishRequest → Access → Go (Unit {0})
  publish_checked fuel ns req access = do
    require (not (req.volume_id =ₛ "")) (status invalid_argument)
    require (not (req.target_path =ₛ "")) (status invalid_argument)
    (if wants_ephemeral ns req then create_ephemeral fuel req.volume_id else pure tt)
    vol ← wrap not_found (get_volume_by_id req.volume_id)
    publish_volume req access vol

  -- NodePublishVolume
  unfoldable pub node_publish_volume : ℕ → NodeServer → NodePublishRequest → Go (Unit {0})
  node_publish_volume fuel ns req =
      maybe req.volume_capability (raise (status invalid_argument)) (publish_checked fuel ns req)
