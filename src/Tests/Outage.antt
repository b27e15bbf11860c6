-- ===== src/Tests/Outage.antt =====
-- Deleting and resizing a volume in remote mode, with a management server that does not answer.
use csi_driver_flexblock.Prelude.Int.{pos}
use csi_driver_flexblock.Driver.Unresized.{expand-unanswered, HostResizes}
use csi_driver_flexblock.Prelude.{true, some, refl, ◌∷◌, []}
use csi_driver_flexblock.Go.{ok}
use csi_driver_flexblock.Controller.Volumes.{controller_expand_volume, delete_volume}
use csi_driver_flexblock.Paths.{get_volume_path}
use csi_driver_flexblock.Prelude.{◌≡◌, [], ◌∷◌}
use csi_driver_flexblock.Volume.{insert, value_of, erase, mount_access, lookup}
use csi_driver_flexblock.Controller.{has_rpc}
use csi_driver_flexblock.Remote.Silent.{IsSilent}
use csi_driver_flexblock.Driver.Unanswered.{delete_volume-unanswered, HostClears}
use csi_driver_flexblock.Env.{Env, Globals}
use csi_driver_flexblock.Tests.{controller, one_volume, calm, a1}

-- the volume `a1`, in remote mode
abbrev remote_volume : Globals
remote_volume = record one_volume { confinfo = ("csimod", "remote") ∷ [] }

calm-IsSilent : IsSilent (calm "")
calm-IsSilent = record { no_answer = λ h r. refl }

calm-HostClears : HostClears (calm "") mount_access (get_volume_path "a1")
calm-HostClears = record { unmounts = λ m h. refl; removes = λ h. refl }

delete_volume-unanswered_example :
    ((delete_volume (calm "") controller "a1" remote_volume).0 ≡ ok tt)
    × ((delete_volume (calm "") controller "a1" remote_volume).1.volumes ≡ [])
unfolding has_rpc lookup erase value_of
delete_volume-unanswered_example =
    delete_volume-unanswered (calm "") calm-IsSilent controller "a1" a1 remote_volume refl refl refl
      refl calm-HostClears

-- a host on which every directory has one entry
abbrev held_devices : Env
held_devices = record (calm "") { read_dir_answer = λ h p. "dm-0" ∷ [] }

held-IsSilent : IsSilent held_devices
held-IsSilent = record { no_answer = λ h r. refl }

held-HostResizes : HostResizes held_devices "a1" mount_access
held-HostResizes = record {
  valid = λ url. refl;
  held = λ h path ips. refl;
  rescans = λ h. refl;
  grows = λ m h disk. refl;
}

expand-unanswered_example :
    ((controller_expand_volume held_devices "a1" (some (pos 2097152)) remote_volume).0
      ≡ ok (record { capacity_bytes = pos 2097152; node_expansion_required = true }))
    × ((controller_expand_volume held_devices "a1" (some (pos 2097152)) remote_volume).1.volumes
        ≡ ("a1", record a1 { vol_size = pos 2097152 }) ∷ [])
unfolding lookup insert erase value_of
expand-unanswered_example =
    expand-unanswered held_devices "a1" a1 (pos 2097152) remote_volume held-IsSilent
      held-HostResizes refl refl refl refl refl
