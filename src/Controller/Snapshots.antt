-- ===== src/Controller/Snapshots.antt =====
-- pkg/flexblock/controllerserver.go: DeleteSnapshot, ListSnapshots, convertSnapshot.
use csi_driver_flexblock.Prelude.Text.Order.{not_above}
use csi_driver_flexblock.Paths.{get_snapshot_path}
use csi_driver_flexblock.Sys.{remove_all}
use csi_driver_flexblock.Prelude.Decimal.{show_ℤ, show, read_digits}
use csi_driver_flexblock.Env.{Env}
use csi_driver_flexblock.Go.{
  invalid_argument, aborted, ◌>>=◌, pure, status, raise, crash, maybe, require, gets, ◌>>◌, modify,
  Go,
}
use csi_driver_flexblock.Controller.{
  create_delete_snapshot, list_snapshots, validate_request, ControllerServer,
}
use csi_driver_flexblock.Prelude.Int.{negsuc, neg_part, eq_ℤ, ltb_ℤ, pos, pos_part, ℤ}
use csi_driver_flexblock.Csi.{ListSnapshotsResponse, ListSnapshotsRequest, CsiSnapshot}
use csi_driver_flexblock.Volume.{erase, lookup, Snapshot, Snapshots}
use csi_driver_flexblock.Prelude.{
  ◌%◌, ◌==◌, length, zero, ◌-◌, not, ◌^◌, get_elem?, ◌+◌, ltb, ◌||◌, suc, ◌=ₛ◌, if◌then◌else◌, ℕ,
  String, false, Option, none, some, List, [], ◌∷◌,
}

unfoldable pub to_csi : Snapshot → CsiSnapshot
to_csi snap = record {
  snapshot_id = snap.id;
  source_volume_id = snap.vol_id;
  creation_time = snap.creation_time;
  size_bytes = snap.size_bytes;
  ready_to_use = snap.ready_to_use;
}

unfoldable pub drop_snapshot : String → Go (Unit {0})
drop_snapshot id = modify (λ s. record s { snapshots = erase id s.snapshots })

-- DeleteSnapshot
unfoldable pub delete_snapshot : Env → ControllerServer → String → Go (Unit {0})
delete_snapshot env cs snapshot_id = do
  require (not (snapshot_id =ₛ "")) (status invalid_argument)
  validate_request cs create_delete_snapshot
  ignored ← remove_all env (get_snapshot_path snapshot_id)
  drop_snapshot snapshot_id

-- convertSnapshot
unfoldable pub convert_snapshot : Snapshot → ListSnapshotsResponse
convert_snapshot snap = record { entries = to_csi snap ∷ []; next_token = "" }

-- the loop of case 2
unfoldable pub find_source : String → Snapshots → Option Snapshot
find_source id [] = none
find_source id ((k, snap) ∷ snaps) = if snap.vol_id =ₛ id then some snap else find_source id snaps

-- sort.Strings
unfoldable pub insert_sorted : String → List String → List String
insert_sorted k [] = k ∷ []
insert_sorted k (j ∷ js) =
    let rest = insert_sorted k js in if not_above k j then k ∷ j ∷ js else j ∷ rest

unfoldable pub sort : List String → List String
sort [] = []
sort (k ∷ ks) = insert_sorted k (sort ks)

unfoldable pub keys_of : Snapshots → List String
keys_of [] = []
keys_of ((k, snap) ∷ snaps) = k ∷ keys_of snaps

abbrev empty_snapshot : Snapshot
empty_snapshot = record {
  name = "";
  id = "";
  vol_id = "";
  path = "";
  creation_time = none;
  size_bytes = pos 0;
  ready_to_use = false;
}

abbrev snapshot_at : String → Snapshots → Snapshot
snapshot_at k snaps = elim (lookup k snaps) [ none ↦ empty_snapshot | some snap ↦ snap ]

-- flexBlockVolumeSnapshots[key] for each key
unfoldable pub snapshots_at : List String → Snapshots → List CsiSnapshot
snapshots_at [] snaps = []
snapshots_at (k ∷ ks) snaps = to_csi (snapshot_at k snaps) ∷ snapshots_at ks snaps

-- int32(n), of a natural number
unfoldable pub int32 : ℕ → ℤ
int32 n = let r = n % 2 ^ 32 in if ltb r (2 ^ 31) then pos r else negsuc (2 ^ 32 - 1 - r)

-- a - b of two int32
unfoldable pub sub_int32 : ℤ → ℤ → ℤ
sub_int32 a b = int32 ((pos_part a + neg_part b) + 2 ^ 32 - (neg_part a + pos_part b))

-- strconv.ParseUint(v, 10, 32), of a text that is not empty
unfoldable pub parse_uint32 : String → Option ℕ
parse_uint32 v = elim (read_digits 0 v) [
  | none ↦ none
  | some n ↦ if ltb n (2 ^ 32) then some n else none
]

-- `startingToken`: `none` is an error of ParseUint
unfoldable pub starting_token_of : String → Option ℤ
starting_token_of token =
    if token =ₛ ""
    then some (pos 0)
    else elim (parse_uint32 token) [ none ↦ none | some i ↦ some (int32 i) ]

-- The loop that fills `entries`, from the index j; `none` is an index out of range.
unfoldable pub entries_from : ℕ → ℕ → List CsiSnapshot → Option (List CsiSnapshot)
entries_from zero j snaps = some []
entries_from (suc n) j snaps =
    let rest = entries_from n (j + 1) snaps in
    elim (get_elem? snaps j) [
      | none ↦ none
      | some snap ↦ elim rest [ none ↦ none | some es ↦ some (snap ∷ es) ]
    ]

-- `nextToken`, from the value of j behind the loop
unfoldable pub next_token_of : ℕ → ℤ → String
next_token_of j ulen = if ltb_ℤ (pos j) ulen then show j else ""

-- `make` of a negative length and an index below 0 are panics.
unfoldable pub page_from : List CsiSnapshot → ℤ → ℤ → Go ListSnapshotsResponse
page_from snaps (pos j) (pos n) =
    maybe (entries_from n j snaps) crash λ es.
      pure (record { entries = es; next_token = next_token_of (j + n) (int32 (length snaps)) })
page_from snaps (pos j) (negsuc n) = crash
page_from snaps (negsuc j) (pos n) =
    if n == 0 then pure (record { entries = []; next_token = show_ℤ (negsuc j) }) else crash
page_from snaps (negsuc j) (negsuc n) = crash

-- maxEntries, from its value in the request and the number of entries that remain
unfoldable pub entry_count : ℤ → ℤ → ℤ
entry_count max_entries rem =
    if eq_ℤ max_entries (pos 0) || ltb_ℤ rem max_entries then rem else max_entries

-- case 3: a page of all the snapshots
unfoldable pub list_page : List CsiSnapshot → ListSnapshotsRequest → Go ListSnapshotsResponse
list_page snaps req = maybe (starting_token_of req.starting_token) (raise (status aborted)) λ start.
    do
      require (not (ltb_ℤ (int32 (length snaps)) start)) (status aborted)
      page_from snaps start (entry_count req.max_entries (sub_int32 (int32 (length snaps)) start))

-- all the snapshots in the order of their ids
unfoldable pub sorted_snapshots : Env → Go (List CsiSnapshot)
sorted_snapshots env =
    gets (λ s. snapshots_at (sort (keys_of (env.range_snapshots s.calls s.snapshots))) s.snapshots)

-- ListSnapshots
unfoldable pub list_snapshots_rpc :
    Env → ControllerServer → ListSnapshotsRequest → Go ListSnapshotsResponse
list_snapshots_rpc env cs req = do
  validate_request cs list_snapshots
  by_id ← gets (λ s. if req.snapshot_id =ₛ "" then none else lookup req.snapshot_id s.snapshots)
  maybe by_id
      (do
        by_source ← gets (λ s.
            if req.source_volume_id =ₛ ""
            then none
            else find_source req.source_volume_id (env.range_snapshots s.calls s.snapshots))
        maybe by_source (do snaps ← sorted_snapshots env; list_page snaps req)
            (λ snap. pure (convert_snapshot snap)))
      (λ snap. pure (convert_snapshot snap))
