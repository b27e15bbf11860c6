-- ===== src/Tests/Instances.antt =====
-- The theorems on the driver and its parts, at concrete inputs.
use csi_driver_flexblock.Remote.Volumes.{no_volume}
use csi_driver_flexblock.Remote.Volumes.{last_volume, first_volume}
use csi_driver_flexblock.Remote.Search.{searches_agree, NoneFits}
use csi_driver_flexblock.Endpoint.Laws.{parse_endpoint_inv}
use csi_driver_flexblock.Http.{exchange}
use csi_driver_flexblock.Sys.{send, sleep}
use csi_driver_flexblock.Remote.Target.{await_lun, find_lun, poll_lun}
use csi_driver_flexblock.Controller.Volumes.{controller_expand_volume}
use csi_driver_flexblock.Controller.Expand.{Expanded-controller_expand_volume, Expanded}
use csi_driver_flexblock.Go.{ok, ◌>>=◌, pure}
use csi_driver_flexblock.Remote.Polling.{await_lun-finds, poll_answer, after_polls}
use csi_driver_flexblock.Endpoint.{parse_endpoint}
use csi_driver_flexblock.Driver.Create.{create_flexblock_volume}
use csi_driver_flexblock.Driver.Delete.{delete_and_store}
use csi_driver_flexblock.Driver.Update.{resize_and_store}
use csi_driver_flexblock.Paths.Laws.{get_snapshot_id_iff, get_volume_path_of_name}
use csi_driver_flexblock.Volume.{lookup, max_storage_capacity, mount_access}
use csi_driver_flexblock.Prelude.Text.{lower, has_prefix_fold, strip_prefix, cut, ◌<>◌}
use csi_driver_flexblock.Prelude.Int.{◌≤ℤ◌, pos}
use csi_driver_flexblock.Rpc.{delete_volume_rpc, expand_rpc, create_volume_rpc, serve, Rpc}
use csi_driver_flexblock.Tests.{servers, fresh_state, create_request, one_volume, a1, calm}
use csi_driver_flexblock.Rpc.WellFormed.{AllFit-serve, AllFit}
use csi_driver_flexblock.Rpc.Saved.{IsSaved-serve, IsSaved}
use csi_driver_flexblock.Store.Range.{RangesOver}
use csi_driver_flexblock.Paths.{get_volume_path, get_snapshot_id, has_char}
use csi_driver_flexblock.Env.{VolInfo, History, Env, Call, last_written, Globals}
use csi_driver_flexblock.Driver.Laws.{
  IsPlaced, Created-create, Updated-resize_and_store, Deleted-delete_and_store, Deleted, Created,
  CanSave, Updated,
}
use csi_driver_flexblock.Prelude.{
  ◌⊎◌, if◌then◌else◌, eq_iff, ◌∙◌, sym, false≢true, arith, ◌≢◌, ◌=ₛ◌, ◌↔◌, false, some, [], true,
  ◌∷◌, ◌≡◌, List, refl, String,
}

-- A calm file system can be written to.
abbrev pub can_save : CanSave (calm "")
can_save = record { made = λ h. refl; opened = λ h. refl; encoded = λ h vs. refl }

abbrev pub in_order : RangesOver (calm "")
in_order = record { visits = λ P h vs all. all; only = λ P h vs all. all }

abbrev pub calls_served : List Rpc
calls_served =
    create_volume_rpc create_request
    ∷ expand_rpc "a1" (some (pos 2097152))
    ∷ delete_volume_rpc "a1"
    ∷ []

pub text_differ : (s t : String) → (s =ₛ t) ≡ false → s ≢ t
text_differ s t differ same = false≢true (sym differ ∙ (eq_iff s t).1 same)

a1_small : a1.vol_size ≤ℤ max_storage_capacity
a1_small = omega arith

a1-IsPlaced : IsPlaced "a1" a1.vol_access_type a1.vol_path
unfolding get_volume_path
a1-IsPlaced = refl

AllFit-serve_example : AllFit (serve (calm "") 5 servers calls_served one_volume).volumes
AllFit-serve_example =
    AllFit-serve (calm "") 5 servers calls_served one_volume ((refl, a1_small, a1-IsPlaced), tt)

abbrev pub saved_volume : Globals
saved_volume = record one_volume { calls = Call.write_volumes (("a1", a1) ∷ []) ∷ [] }

IsSaved-serve_example : IsSaved (serve (calm "") 5 servers calls_served saved_volume)
unfolding last_written
IsSaved-serve_example = IsSaved-serve (calm "") can_save 5 servers calls_served saved_volume refl

Created-create_example :
    Created "a1" "pvc-a1"
      (pos 1048576)
      mount_access
      false
      []
      (create_flexblock_volume
        (calm "")
        5
        "a1"
        "pvc-a1"
        (pos 1048576)
        mount_access
        false
        fresh_state).0
      (create_flexblock_volume
        (calm "")
        5
        "a1"
        "pvc-a1"
        (pos 1048576)
        mount_access
        false
        fresh_state).1.volumes
Created-create_example =
    Created-create (calm "") "a1" "pvc-a1" (pos 1048576) mount_access false 5 fresh_state

Deleted-delete_and_store_example :
    Deleted "a1"
      (("a1", a1) ∷ [])
      (delete_and_store
        (calm "Target 1: iqn.2017-10-30.kx.flexcsi-a1")
        "a1"
        mount_access
        one_volume).0
      (delete_and_store
        (calm "Target 1: iqn.2017-10-30.kx.flexcsi-a1")
        "a1"
        mount_access
        one_volume).1.volumes
Deleted-delete_and_store_example =
    Deleted-delete_and_store (calm "Target 1: iqn.2017-10-30.kx.flexcsi-a1") "a1" mount_access
      one_volume

Updated-resize_and_store_example :
    Updated "a1" a1
      (("a1", a1) ∷ [])
      (resize_and_store (calm "") "a1" a1 mount_access one_volume).0
      (resize_and_store (calm "") "a1" a1 mount_access one_volume).1.volumes
Updated-resize_and_store_example =
    Updated-resize_and_store (calm "") "a1" a1 mount_access one_volume

get_snapshot_id_iff_example :
    (get_snapshot_id "s1.snap" ≡ (true, "s1")) ↔ ("s1.snap" ≡ "s1" <> ".snap")
get_snapshot_id_iff_example = get_snapshot_id_iff "s1.snap" "s1"

get_volume_path_of_name_example : get_volume_path "a1" ≡ "/csi-flexblock-data-dir" <> "/" <> "a1"
unfolding has_char
get_volume_path_of_name_example =
    get_volume_path_of_name "a1" refl (text_differ "a1" "" refl) (text_differ "a1" "." refl)
      (text_differ "a1" ".." refl)

Expanded-controller_expand_volume_example :
    Expanded "a1" a1
      (pos 2097152)
      (("a1", a1) ∷ [])
      (controller_expand_volume (calm "") "a1" (some (pos 2097152)) one_volume).0
      (controller_expand_volume (calm "") "a1" (some (pos 2097152)) one_volume).1.volumes
unfolding lookup
Expanded-controller_expand_volume_example =
    Expanded-controller_expand_volume (calm "") "a1" a1 (pos 2097152) one_volume refl

abbrev tcp_address : String
tcp_address = "127.0.0.1:10000"

parse_endpoint_inv_example :
    ("tcp://127.0.0.1:10000" ≡ "tcp" <> "://" <> "127.0.0.1:10000") × (tcp_address ≢ "")
unfolding parse_endpoint cut strip_prefix has_prefix_fold lower
parse_endpoint_inv_example = parse_endpoint_inv "tcp://127.0.0.1:10000" "tcp" tcp_address refl

-- The server knows of the volume from the second round on.
abbrev body_at : History → String
body_at (c ∷ d ∷ calls) = "bound"
body_at calls = ""

abbrev answering : Env
answering = record (calm "") {
  send_answer = λ h r. some (record { status_code = 200; auth_token = ""; body = body_at h });
  unmarshal_luns = λ s.
      if s =ₛ "bound"
      then record { volume_id = pos 7; volume_name = "a1"; operating_status = "TargetNewOK" } ∷ []
      else [];
}

await_lun-finds_example :
    await_lun answering 5 "http://h:1" "t" (pos 1) "a1" fresh_state
    ≡ (ok (some (pos 7)), after_polls answering "http://h:1" "t" (pos 1) "a1" 2 fresh_state)
unfolding after_polls poll_answer poll_lun sleep exchange send find_lun pure ◌>>=◌
await_lun-finds_example =
    await_lun-finds answering "http://h:1" "t" (pos 1) "a1" 1 5 fresh_state (pos 7) (omega arith)
      (refl, tt) refl refl

abbrev listed : VolInfo
listed = record {
  volume_id = pos 7;
  cluster_id = pos 1;
  volume_name = "a1";
  pool_id = pos 2;
  target_id = pos 3;
}

abbrev listed_only : List VolInfo
listed_only = listed ∷ []

searches_agree_example :
    (NoneFits (pos 1) (pos 2) "a1" listed_only
      × (first_volume (pos 1) (pos 2) "a1" listed_only ≡ no_volume)
      × (last_volume (pos 1) (pos 2) "a1" (pos 0, pos 0) listed_only ≡ (pos 0, pos 0)))
    ⊎ (last_volume (pos 1) (pos 2) "a1" (pos 0, pos 0) listed_only
        ≡ first_volume (pos 1) (pos 2) "a1" listed_only)
searches_agree_example = searches_agree (pos 1) (pos 2) "a1" listed_only ((λ _. tt), tt)
