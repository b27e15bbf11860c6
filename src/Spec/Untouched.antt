-- ===== src/Spec/Untouched.antt =====
-- Lists of calls of Rpc.antt that do not name a volume.
use csi_driver_flexblock.Spec.Serves.{Behaves-serve}
use csi_driver_flexblock.Spec.View.{view}
use csi_driver_flexblock.Identity.{Servers}
use csi_driver_flexblock.Prelude.Text.{skip_bytes, skip_bytes}
use csi_driver_flexblock.Prelude.Int.{ℤ}
use csi_driver_flexblock.Env.{Globals, Env}
use csi_driver_flexblock.Spec.{
  ended, served, halted, update, CreateChanges, ExpandChanges, Changes, Allowed, Info, Behaves,
  View,
}
use csi_driver_flexblock.Node.{NodeServer}
use csi_driver_flexblock.Rpc.{
  unpublish_rpc, publish_rpc, node_expand_rpc, serve, expand_rpc, delete_volume_rpc,
  create_volume_rpc, Rpc,
}
use csi_driver_flexblock.Csi.{CreateVolumeRequest}
use csi_driver_flexblock.Prelude.{
  ◌∙◌, eq_iff, ◌=ₛ◌, ap, inr, Bool-cases, none, inl, ◌≡◌, ℕ, ◌≢◌, some, List, Option, ◌∷◌, [], refl,
  String,
}

-- the id of the volume that a call may change
abbrev pub named_by : Rpc → Option String
named_by (create_volume_rpc req) = some (skip_bytes 4 req.name)
named_by (delete_volume_rpc id) = some id
named_by (expand_rpc id range) = some id
named_by (node_expand_rpc req) = some req.volume_id
named_by (publish_rpc req) = some req.volume_id
named_by (unpublish_rpc id target) = some id
named_by _ = none

abbrev pub NoneNames : String → List Rpc → Type 0
NoneNames id [] = Unit
NoneNames id (r ∷ rs) = (named_by r ≢ some id) × NoneNames id rs

module _ (id : String) where
  update_other :
      (v w : View) (k : String) (i : Option Info)
      → some k ≢ some id
      → w ≡ update v k i
      → w id ≡ v id
  update_other v w k i other changed = elim (Bool-cases (k =ₛ id)) [
    | inl same ↦ absurd (other (ap some ((eq_iff k id).0 same)))
    | inr differ ↦ ap (λ (u : View). u id) changed ∙ rw differ refl
  ]

  expand_other :
      (k : String) (range : Option ℤ) (v w : View)
      → some k ≢ some id
      → ExpandChanges k range v w
      → w id ≡ v id
  expand_other k none v w other changed = absurd changed
  expand_other k (some capacity) v w other (i, _, _, _, changed) =
      update_other v w k _ other changed

  create_other :
      (req : CreateVolumeRequest) (v w : View)
      → some (skip_bytes 4 req.name) ≢ some id
      → CreateChanges req v w
      → w id ≡ v id
  create_other req v w other (caps, _, _, inl made) = update_other v w _ _ other made
  create_other req v w other (caps, _, _, inr erased) = update_other v w _ _ other erased

  module _ (ns : NodeServer) where
    Changes-other : (r : Rpc) (v w : View) → named_by r ≢ some id → Changes ns r v w → w id ≡ v id
    Changes-other (create_volume_rpc req) v w other c = create_other req v w other c
    Changes-other (delete_volume_rpc k) v w other c = update_other v w k none other c
    Changes-other (expand_rpc k range) v w other c = expand_other k range v w other c
    Changes-other (node_expand_rpc req) v w other c =
        expand_other req.volume_id req.capacity_range v w other c
    Changes-other (publish_rpc req) v w other (wants, c) = update_other v w req.volume_id _ other c
    Changes-other (unpublish_rpc k target) v w other (i, _, _, c) = update_other v w k none other c
    Changes-other _ v w other c = absurd c

    Allowed-other : (r : Rpc) (v w : View) → named_by r ≢ some id → Allowed ns r v w → w id ≡ v id
    Allowed-other r v w other (inl same) = ap (λ (u : View). u id) same
    Allowed-other r v w other (inr c) = Changes-other r v w other c

    Behaves-other : (rs : List Rpc) (v w : View) → NoneNames id rs → Behaves ns rs v w → w id ≡ v id
    Behaves-other [] v w others ended = refl
    Behaves-other (r ∷ rs) v w (other, others) (halted a) = Allowed-other r v w other a
    Behaves-other (r ∷ rs) v w (other, others) (served {w = u} a b) =
        Behaves-other rs u w others b ∙ Allowed-other r v u other a

-- Whatever calls are served that do not name an id, and whatever the environment answers, the volume
-- of that id keeps its name, size, access type and kind, or is still missing.
pub untouched-serve :
    (env : Env) (fuel : ℕ) (srv : Servers) (id : String) (rs : List Rpc) (s : Globals)
    → NoneNames id rs
    → view (serve env fuel srv rs s).volumes id ≡ view s.volumes id
untouched-serve env fuel srv id rs s others =
    Behaves-other id srv.ns rs (view s.volumes) _ others (Behaves-serve env fuel srv rs s)
