-- ===== src/Tests/Served.antt =====
-- The theorems on lists of calls and on the rest of the server, at concrete inputs.
use csi_driver_flexblock.Controller.Bounds.{list_page-bounds}
use csi_driver_flexblock.Prelude.Decimal.{show}
use csi_driver_flexblock.Conf.Laws.{lookup-read_conf, last_setting, or_else}
use csi_driver_flexblock.Controller.Snapshots.{
  sub_int32, int32, starting_token_of, next_token_of, entry_count, entries_from, page_from, to_csi,
  list_page,
}
use csi_driver_flexblock.Csi.{ListSnapshotsRequest, ListSnapshotsResponse}
use csi_driver_flexblock.Conf.{read_conf}
use csi_driver_flexblock.Endpoint.Laws.{parse_endpoint-print}
use csi_driver_flexblock.Store.Discover.{lookup-add_snapshots, has_file}
use csi_driver_flexblock.Tests.Instances.{text_differ}
use csi_driver_flexblock.Spec.Serves.{Behaves-serve}
use csi_driver_flexblock.Server.Laws.{log_grpc-same, before_handler}
use csi_driver_flexblock.Spec.Untouched.{untouched-serve}
use csi_driver_flexblock.Prelude.Int.{pos}
use csi_driver_flexblock.Controller.Volumes.{delete_volume}
use csi_driver_flexblock.Tests.Requests.{two_snapshots}
use csi_driver_flexblock.Store.{found_snapshot, add_snapshots}
use csi_driver_flexblock.Tests.{
  servers, fresh_state, clone_request, create_request, one_volume, calm,
}
use csi_driver_flexblock.Spec.View.{view}
use csi_driver_flexblock.Env.{last_written}
use csi_driver_flexblock.Server.{log_grpc}
use csi_driver_flexblock.Controller.Walk.{walk-all, walk}
use csi_driver_flexblock.Volume.{lookup}
use csi_driver_flexblock.Prelude.Text.{byte_width, skip_bytes, ◌<>◌}
use csi_driver_flexblock.Spec.{Behaves}
use csi_driver_flexblock.Go.{◌>>=◌, pure, maybe, require, ok, Go}
use csi_driver_flexblock.Endpoint.{parse_endpoint}
use csi_driver_flexblock.Tests.{controller, node}
use csi_driver_flexblock.Prelude.{
  ◌≤◌, length, false, ◌=ₛ◌, arith, if◌then◌else◌, ◌≡◌, ◌≢◌, some, List, String, ◌∷◌, [], refl,
}
use csi_driver_flexblock.Rpc.{delete_volume_rpc, expand_rpc, create_volume_rpc, serve, Rpc}

abbrev calls_after : List Rpc
calls_after =
    create_volume_rpc create_request
    ∷ expand_rpc "a1" (some (pos 2097152))
    ∷ delete_volume_rpc "a1"
    ∷ []

Behaves-serve_example :
    Behaves node calls_after
      (view (one_volume).volumes)
      (view (serve (calm "") 5 servers calls_after one_volume).volumes)
Behaves-serve_example = Behaves-serve (calm "") 5 servers calls_after one_volume

abbrev pub elsewhere : List Rpc
elsewhere = create_volume_rpc clone_request ∷ delete_volume_rpc "c3" ∷ []

pub differs : (s t : String) → (s =ₛ t) ≡ false → some s ≢ some t
differs s t d h = text_differ s t d (inner s t h)
  where
    inner : (s t : String) → some s ≡ some t → s ≡ t
    inner s t e = cc

untouched-serve_example :
    view (serve (calm "") 5 servers elsewhere one_volume).volumes "a1"
    ≡ view one_volume.volumes "a1"
unfolding skip_bytes byte_width
untouched-serve_example =
    untouched-serve (calm "") 5 servers "a1" elsewhere one_volume
      (differs "b2" "a1" refl, (differs "c3" "a1" refl, tt))

walk-all_example : walk 3 two_snapshots 1 "" fresh_state ≡ (ok two_snapshots, fresh_state)
walk-all_example = walk-all two_snapshots 1 3 fresh_state (omega arith) (omega arith) (omega arith)

parse_endpoint-print_example :
    (parse_endpoint ("unix://" <> "csi/csi.sock") ≡ ok ("unix", "csi/csi.sock"))
    × (parse_endpoint ("tcp://" <> "csi/csi.sock") ≡ ok ("tcp", "csi/csi.sock"))
parse_endpoint-print_example =
    parse_endpoint-print "csi/csi.sock" (text_differ "csi/csi.sock" "" refl)

lookup-add_snapshots_example :
    lookup "s1" (add_snapshots ("a1" ∷ "s1.snap" ∷ []) [])
    ≡ (if has_file "s1" ("a1" ∷ "s1.snap" ∷ []) then some (found_snapshot "s1") else lookup "s1" [])
lookup-add_snapshots_example = lookup-add_snapshots "s1" ("a1" ∷ "s1.snap" ∷ []) []

abbrev deletion : Go (Unit {0})
deletion = delete_volume (calm "Target 1: iqn.2017-10-30.kx.flexcsi-a1") controller "a1"

abbrev method : String
method = "/csi.v1.Controller/DeleteVolume"

log_grpc-same_example :
    ((log_grpc method deletion one_volume).0
      ≡ (deletion (before_handler deletion method one_volume)).0)
    × ((log_grpc method deletion one_volume).1.volumes
        ≡ (deletion (before_handler deletion method one_volume)).1.volumes)
    × ((log_grpc method deletion one_volume).1.snapshots
        ≡ (deletion (before_handler deletion method one_volume)).1.snapshots)
    × (last_written (log_grpc method deletion one_volume).1.calls
        ≡ last_written (deletion (before_handler deletion method one_volume)).1.calls)
log_grpc-same_example = log_grpc-same deletion method one_volume

abbrev conf_lines : List String
conf_lines = "csimod=local" ∷ "# a comment" ∷ "csimod = remote" ∷ "=x" ∷ []

lookup-read_conf_example :
    lookup "csimod" (read_conf [] conf_lines)
    ≡ or_else (last_setting "csimod" conf_lines) (lookup "csimod" [])
lookup-read_conf_example = lookup-read_conf "csimod" [] conf_lines

abbrev first_page : ListSnapshotsRequest
first_page = record {
  snapshot_id = "";
  source_volume_id = "";
  max_entries = pos 1;
  starting_token = "";
}

abbrev one_entry : ListSnapshotsResponse
one_entry = record { entries = to_csi (found_snapshot "s1") ∷ []; next_token = show 1 }

list_page-bounds_example :
    (length one_entry.entries ≤ length two_snapshots) × (length one_entry.entries ≤ 1)
unfolding list_page page_from entries_from entry_count next_token_of starting_token_of int32
    sub_int32 maybe require pure ◌>>=◌
list_page-bounds_example =
    list_page-bounds two_snapshots first_page 1 one_entry fresh_state refl refl
