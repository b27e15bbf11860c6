-- ===== src/Tests/Raced.antt =====
-- Two calls of CreateVolume for one name and two sizes, in between each other.
use csi_driver_flexblock.Paths.{get_volume_path}
use csi_driver_flexblock.Sys.{run}
use csi_driver_flexblock.Driver.Disk.{size_in_mib, local_iqn, local_disk, next_tid, checked}
use csi_driver_flexblock.Driver.Disk.{checked}
use csi_driver_flexblock.Http.{setting}
use csi_driver_flexblock.Remote.Cluster.{get_cluster_id}
use csi_driver_flexblock.Driver.Create.{
  make_target, format, create_local, new_volume, prepare, create_flexblock_volume,
}
use csi_driver_flexblock.Tests.Instances.{in_order}
use csi_driver_flexblock.Go.{modify, gets, ok, wrap, maybe, require, pure, ◌>>=◌, attempt, optional}
use csi_driver_flexblock.Controller.Race.{create_volume-race}
use csi_driver_flexblock.Controller.{has_rpc, validate_request}
use csi_driver_flexblock.Volume.{erase, insert, value_of, lookup, Volume}
use csi_driver_flexblock.Sys.{open_write, write_volumes, sleep, mkdir_all, read_file}
use csi_driver_flexblock.Tests.{controller}
use csi_driver_flexblock.Prelude.Int.{pos}
use csi_driver_flexblock.Controller.Create.{
  requested_access, any_mount, any_block, created, populate, populate_or_delete, topologies,
  fresh_volume,
}
use csi_driver_flexblock.Tests.{fresh_state, calm, create_request}
use csi_driver_flexblock.Store.{save_existing_vol, put_volume, get_volume_by_name, find_volume_name}
use csi_driver_flexblock.Csi.{CsiVolume, mount_volume, CreateVolumeRequest}
use csi_driver_flexblock.Env.{Globals}
use csi_driver_flexblock.Prelude.Text.{
  skip_bytes, byte_width, byte_size, cut_last, contains, skip, size,
}
use csi_driver_flexblock.Controller.Steps.{look_for, act, look, Looked}
use csi_driver_flexblock.Prelude.{none, some, ◌≡◌, ◌∷◌, [], refl}

abbrev larger : CreateVolumeRequest
larger = record create_request { capacity_range = some (pos 2097152) }

abbrev seen : Looked
seen = record { caps = mount_volume ∷ []; nodes = "node1" ∷ []; existing = none }

abbrev looked_once : Globals
looked_once = (look (calm "") controller create_request fresh_state).1

abbrev looked_twice : Globals
looked_twice = (look (calm "") controller larger looked_once).1

abbrev made_once : Globals
made_once = (act (calm "") 5 create_request seen looked_twice).1

abbrev made_twice : Globals
made_twice = (act (calm "") 5 larger seen made_once).1

abbrev first_reply : CsiVolume
first_reply = created create_request "a1" (pos 1048576) ("node1" ∷ [])

abbrev second_reply : CsiVolume
second_reply = created larger "a1" (pos 2097152) ("node1" ∷ [])

first_look : (look (calm "") controller create_request fresh_state).0 ≡ ok seen
unfolding look look_for topologies read_file validate_request optional get_volume_by_name
    find_volume_name any_block any_mount has_rpc ◌>>=◌ pure require maybe
first_look = refl

second_look : (look (calm "") controller larger looked_once).0 ≡ ok seen
unfolding look look_for topologies read_file validate_request optional get_volume_by_name
    find_volume_name any_block any_mount has_rpc ◌>>=◌ pure require maybe
second_look = refl

first_act : (act (calm "") 5 create_request seen looked_twice).0 ≡ ok first_reply
unfolding size byte_size byte_width look look_for act fresh_volume populate_or_delete populate
    topologies read_file validate_request optional attempt get_volume_by_name find_volume_name
    any_block any_mount requested_access has_rpc skip skip_bytes create_flexblock_volume prepare
    wrap get_cluster_id setting gets ◌>>=◌ pure modify put_volume save_existing_vol new_volume
    create_local format make_target checked run require maybe next_tid mkdir_all sleep
    get_volume_path local_disk contains value_of lookup cut_last write_volumes open_write local_iqn
    size_in_mib
first_act = refl

second_act : (act (calm "") 5 larger seen made_once).0 ≡ ok second_reply
unfolding size byte_size byte_width look look_for act fresh_volume populate_or_delete populate
    topologies read_file validate_request optional attempt get_volume_by_name find_volume_name
    any_block any_mount requested_access has_rpc skip skip_bytes create_flexblock_volume prepare
    wrap get_cluster_id setting gets ◌>>=◌ pure modify put_volume save_existing_vol new_volume
    create_local format make_target checked run require maybe next_tid mkdir_all sleep
    get_volume_path local_disk contains value_of lookup cut_last write_volumes open_write local_iqn
    size_in_mib insert erase
second_act = refl

-- The caller with the smaller size has its answer, and the volume has the larger one.
create_volume-race_example :
    (first_reply.volume_id ≡ second_reply.volume_id)
    × (first_reply.capacity_bytes ≡ pos 1048576)
    × ((vol : Volume) × (lookup "a1" made_twice.volumes ≡ some vol) × (vol.vol_size ≡ pos 2097152))
unfolding find_volume_name
create_volume-race_example =
    create_volume-race (calm "") in_order 5 controller create_request larger seen seen first_reply
      second_reply fresh_state looked_once looked_twice made_once made_twice refl refl
      (λ i. (first_look i, looked_once)) (λ i. (second_look i, looked_twice))
      (λ i. (first_act i, made_once)) (λ i. (second_act i, made_twice))
