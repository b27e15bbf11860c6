-- ===== src/Tests/Published.antt =====
-- A published volume, at a concrete input.
use csi_driver_flexblock.Prelude.Text.{◌<>◌}
use csi_driver_flexblock.Paths.{get_volume_path}
use csi_driver_flexblock.Store.{get_volume_by_id}
use csi_driver_flexblock.Go.{ok, ◌>>=◌, pure, require, maybe, wrap}
use csi_driver_flexblock.Volume.{lookup, value_of}
use csi_driver_flexblock.Driver.Disk.{local_disk, local_iqn, checked}
use csi_driver_flexblock.Tests.{node}
use csi_driver_flexblock.Tests.{one_volume, calm}
use csi_driver_flexblock.Node.Publish.{
  wants_ephemeral, mount_device, no_error, ensure_directory, publish_mount, publish_volume,
  publish_checked, node_publish_volume,
}
use csi_driver_flexblock.Csi.{mount_volume, NodePublishRequest}
use csi_driver_flexblock.Node.Published.Succeeds.{published, IsPublished}
use csi_driver_flexblock.Prelude.{◌≡◌, true, some, [], refl}
use csi_driver_flexblock.Sys.{is_not_mount_point, run, sleep}

abbrev publish_request : NodePublishRequest
publish_request = record {
  volume_id = "a1";
  target_path = "/var/lib/kubelet/t1";
  volume_capability = some mount_volume;
  volume_context = [];
  readonly = true;
}

publish_run : (node_publish_volume (calm "") 5 node publish_request one_volume).0 ≡ ok tt
unfolding node_publish_volume publish_checked publish_volume publish_mount ensure_directory no_error
    mount_device checked wants_ephemeral value_of is_not_mount_point run sleep wrap get_volume_by_id
    lookup maybe require pure ◌>>=◌ get_volume_path local_iqn local_disk ◌<>◌
publish_run = refl

published_example :
    IsPublished
      (calm "")
      publish_request
      mount_volume
      (node_publish_volume (calm "") 5 node publish_request one_volume).1
published_example =
    published (calm "") 5 node publish_request mount_volume one_volume refl refl publish_run
