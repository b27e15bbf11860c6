-- ===== src/Controller/Deleted.antt =====
-- What DeleteSnapshot leaves.
use csi_driver_flexblock.Volume.{lookup-erase, lookup}
use csi_driver_flexblock.Sys.{remove_all}
use csi_driver_flexblock.Go.{pending, panic, err, ◌>>=◌, raise, pure, require, modify, ok, Result}
use csi_driver_flexblock.Controller.{
  create_delete_snapshot, has_rpc, ControllerServer, validate_request,
}
use csi_driver_flexblock.Env.{Env, Globals}
use csi_driver_flexblock.Controller.Snapshots.{drop_snapshot, delete_snapshot}
use csi_driver_flexblock.Prelude.{
  inr, inl, Bool-cases, none, ◌=ₛ◌, if◌then◌else◌, ◌≡◌, String, refl,
}

-- The map of snapshots behind a deletion, and the map of volumes, which is as it was.
abbrev pub SnapshotDeleted : String → Globals → Result (Unit {0}) → Globals → Type 0
SnapshotDeleted id s (ok u) t =
    ((j : String) → lookup j t.snapshots ≡ (if id =ₛ j then none else lookup j s.snapshots))
    × (t.volumes ≡ s.volumes)
SnapshotDeleted id s (err e) t = t ≡ s
SnapshotDeleted id s panic t = ⊥
SnapshotDeleted id s pending t = ⊥

-- A successful DeleteSnapshot takes the id, and no other, out of the map of snapshots, whether or not its file can be
-- removed; with an error nothing is called or changed, and there is no other outcome.
pub SnapshotDeleted-delete_snapshot :
    (env : Env) (cs : ControllerServer) (id : String) (s : Globals)
    → SnapshotDeleted id s (delete_snapshot env cs id s).0 (delete_snapshot env cs id s).1
unfolding delete_snapshot validate_request drop_snapshot remove_all modify require pure raise ◌>>=◌
SnapshotDeleted-delete_snapshot env cs id s = elim (Bool-cases (id =ₛ "")) [
  | inl empty ↦ rw empty refl
  | inr named ↦ elim (Bool-cases (has_rpc create_delete_snapshot cs.caps)) [
    | inl announced ↦ rw named (rw announced (λ j. lookup-erase id j s.snapshots, refl))
    | inr other ↦ rw named (rw other refl)
  ]
]
