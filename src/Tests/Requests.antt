-- ===== src/Tests/Requests.antt =====
-- The theorems on requests to the controller, at concrete inputs.
use csi_driver_flexblock.Controller.Listing.{list_snapshots-crashes}
use csi_driver_flexblock.Volume.{lookup, Snapshots}
use mathlib.Core.List.{Perm}
use mathlib.Core.List.Perm
use csi_driver_flexblock.Controller.Deleted.{SnapshotDeleted-delete_snapshot, SnapshotDeleted}
use csi_driver_flexblock.Controller.Checks.{after_nodes}
use csi_driver_flexblock.Tests.Instances.{text_differ, in_order}
use csi_driver_flexblock.Controller.Pages.{list_page-fits}
use csi_driver_flexblock.Prelude.Decimal.{show, read_digits}
use csi_driver_flexblock.Controller.Snapshots.{
  insert_sorted, snapshots_at, sort, keys_of, list_snapshots_rpc, delete_snapshot, int32, list_page,
  parse_uint32, to_csi, starting_token_of,
}
use csi_driver_flexblock.Controller.{ControllerServer, new_controller_server, has_rpc}
use csi_driver_flexblock.Tests.Runs.{clone_run, create_rpc_run}
use csi_driver_flexblock.Controller.Retry.{
  create_volume-short_name, create_volume-refused, create_volume-again,
}
use csi_driver_flexblock.Controller.Create.{any_mount, any_block, created, create_volume}
use csi_driver_flexblock.Csi.{
  mount_volume, ListSnapshotsRequest, CsiSnapshot, CreateVolumeRequest, CsiVolume,
}
use csi_driver_flexblock.Go.{Go, panic, already_exists, status, err, ok}
use csi_driver_flexblock.Prelude.Text.{skip_bytes, byte_width, byte_size, size}
use csi_driver_flexblock.Prelude.Int.{ℤ, pos}
use csi_driver_flexblock.Tests.{
  clone_request, fresh_state, create_request, controller, one_volume, calm,
}
use csi_driver_flexblock.Env.{Env, Globals}
use csi_driver_flexblock.Store.{found_snapshot, find_volume_name}
use csi_driver_flexblock.Prelude.{false, arith, [], ◌∷◌, ◌≡◌, List, refl, String}

abbrev made_state : Globals
made_state = (create_volume (calm "") 5 controller create_request fresh_state).1

abbrev a1_reply : CsiVolume
a1_reply = created create_request "a1" (pos 1048576) ("node1" ∷ [])

create_volume-again_example :
    (w : CsiVolume) × (create_volume (calm "") 5 controller create_request made_state
      ≡ (ok w, after_nodes made_state))
    × (w.volume_id ≡ "a1")
    × (w.capacity_bytes ≡ pos 1048576)
unfolding find_volume_name
create_volume-again_example =
    create_volume-again (calm "") 5 controller create_request fresh_state made_state a1_reply
      in_order tt refl (λ i. (create_rpc_run i, made_state))

abbrev cloned_state : Globals
cloned_state = (create_volume (calm "") 5 controller clone_request one_volume).1

abbrev b2_reply : CsiVolume
b2_reply = created clone_request "b2" (pos 2097152) ("node1" ∷ [])

create_volume-refused_example :
    create_volume (calm "") 5 controller clone_request cloned_state
    ≡ (err (status already_exists), after_nodes cloned_state)
unfolding find_volume_name
create_volume-refused_example =
    create_volume-refused (calm "") 5 controller clone_request one_volume cloned_state b2_reply "a1"
      in_order refl (text_differ "a1" "" refl) refl (λ i. (clone_run i, cloned_state))

abbrev pub two_snapshots : List CsiSnapshot
two_snapshots = to_csi (found_snapshot "s1") ∷ to_csi (found_snapshot "s2") ∷ []

abbrev page_request : String → ℤ → ListSnapshotsRequest
page_request token limit = record {
  snapshot_id = "";
  source_volume_id = "";
  max_entries = limit;
  starting_token = token;
}

list_page-fits_example : list_page two_snapshots (page_request "" (pos 1)) fresh_state ≡ (
  ok (record { entries = to_csi (found_snapshot "s1") ∷ []; next_token = show 1 }),
  fresh_state,
)
unfolding starting_token_of
list_page-fits_example =
    list_page-fits two_snapshots (page_request "" (pos 1)) 0 1 fresh_state (omega arith) refl
      (omega arith) refl

-- three characters of three bytes each
bytes_run : byte_size "日本語" ≡ 9
unfolding byte_size byte_width
bytes_run = refl

-- The second character is cut behind its first byte.
cut_run : skip_bytes 4 "日本x" ≡ "��x"
unfolding skip_bytes byte_width
cut_run = refl

abbrev short_request : CreateVolumeRequest
short_request = record create_request { name = "abc" }

create_volume-short_name_example :
    create_volume (calm "") 5 controller short_request one_volume ≡ (panic, after_nodes one_volume)
unfolding find_volume_name has_rpc any_block any_mount size byte_size byte_width
create_volume-short_name_example =
    create_volume-short_name (calm "") 5 controller short_request one_volume (mount_volume ∷ [])
      in_order (record { rpc = refl; name = refl; asked = refl; one_access = refl; below = refl })
      refl (omega arith)

abbrev with_snapshot : Globals
with_snapshot = record one_volume { snapshots = ("s1", found_snapshot "s1") ∷ [] }

abbrev snapshot_deletion : Go (Unit {0})
snapshot_deletion = delete_snapshot (calm "") (new_controller_server false "node1") "s1"

SnapshotDeleted-delete_snapshot_example :
    SnapshotDeleted "s1" with_snapshot
      (snapshot_deletion with_snapshot).0
      (snapshot_deletion with_snapshot).1
SnapshotDeleted-delete_snapshot_example =
    SnapshotDeleted-delete_snapshot (calm "") (new_controller_server false "node1") "s1"
      with_snapshot

abbrev two_kept : Globals
two_kept = record one_volume {
  snapshots = ("s2", found_snapshot "s2") ∷ ("s1", found_snapshot "s1") ∷ [];
}

-- the entries the other way round
abbrev turned : Snapshots → Snapshots
turned (a ∷ b ∷ []) = b ∷ a ∷ []
turned snaps = snaps

abbrev turning : Env
turning = record (calm "") { range_snapshots = λ h snaps. turned snaps }

turned-perm : (snaps : Snapshots) → Perm (keys_of (turned snaps)) (keys_of snaps)
unfolding keys_of
turned-perm [] = Perm.rfl
turned-perm (a ∷ []) = Perm.rfl
turned-perm (a ∷ b ∷ []) = Perm.swap _ _ _
turned-perm (a ∷ b ∷ c ∷ snaps) = Perm.rfl

abbrev lister : ControllerServer
lister = new_controller_server false "node1"

abbrev missing_request : ListSnapshotsRequest
missing_request = record (page_request "" (pos 1)) { snapshot_id = "s3" }

abbrev past_the_end : ListSnapshotsRequest
past_the_end = page_request "2147483648" (pos 0)

list_snapshots-crashes_example :
    list_snapshots_rpc turning lister past_the_end two_kept ≡ (panic, two_kept)
unfolding has_rpc new_controller_server lookup starting_token_of parse_uint32 read_digits int32
    keys_of snapshots_at sort insert_sorted
list_snapshots-crashes_example =
    list_snapshots-crashes turning lister past_the_end 2147483647 two_kept
      (record { permutes = λ h snaps. turned-perm snaps }) refl refl refl (omega arith)
      (omega arith) refl refl
