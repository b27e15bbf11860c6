-- ===== src/Spec.antt =====
-- What a call may do to the volumes, said of the volumes as a function from ids, without the maps, the
-- commands and the files: a specification for the service of Rpc.antt.
pub mod View
pub mod Operations
pub mod Refines
pub mod Resized
pub mod Serves
pub mod Untouched
pub mod Promised
pub mod Answers
pub mod Gone
use csi_driver_flexblock.Node.Publish.{wants_ephemeral}
use csi_driver_flexblock.Controller.Create.{requested_access}
use csi_driver_flexblock.Rpc.{
  unpublish_rpc, publish_rpc, node_expand_rpc, expand_rpc, delete_volume_rpc, create_volume_rpc,
  Rpc,
}
use csi_driver_flexblock.Volume.{mount_access, AccessType, max_storage_capacity}
use csi_driver_flexblock.Csi.{required_bytes, Access, CreateVolumeRequest}
use csi_driver_flexblock.Prelude.Int.{ltb_ℤ, ℤ}
use csi_driver_flexblock.Node.{NodeServer}
use csi_driver_flexblock.Prelude.Text.{skip_bytes, ◌<>◌}
use csi_driver_flexblock.Prelude.{
  false, true, none, ◌∷◌, ◌⊎◌, [], Bool, ◌=ₛ◌, if◌then◌else◌, some, List, ◌≡◌, Option, String, refl,
}

-- what is promised of a volume
pub record Info : Type 0 where
  pub name : String
  pub size : ℤ
  pub access : AccessType
  pub ephemeral : Bool

abbrev pub View : Type 0
View = String → Option Info

-- a view, changed at one id
abbrev pub update : View → String → Option Info → View
update v id i j = if id =ₛ j then i else v j

abbrev pub resized : Info → ℤ → Info
resized i capacity = record i { size = capacity }

-- A volume of the view is made larger, to less than the largest size.
abbrev pub Resizes : String → ℤ → View → View → Type 0
Resizes id capacity v w =
    (i : Info) × (v id ≡ some i)
    × (ltb_ℤ i.size capacity ≡ true)
    × (ltb_ℤ capacity max_storage_capacity ≡ true)
    × (w ≡ update v id (some (resized i capacity)))

-- what CreateVolume makes for a request
abbrev pub requested : CreateVolumeRequest → List Access → Info
requested req caps = record {
  name = req.name;
  size = required_bytes req.capacity_range;
  access = requested_access caps;
  ephemeral = false;
}

-- what NodePublishVolume makes for an id
abbrev pub ephemeral_info : String → Info
ephemeral_info id = record {
  name = "ephemeral-" <> id;
  size = max_storage_capacity;
  access = mount_access;
  ephemeral = true;
}

-- A volume of the request is made, or what was made is deleted again.
abbrev pub CreateChanges : CreateVolumeRequest → View → View → Type 0
CreateChanges req v w =
    (caps : List Access) × (req.volume_capabilities ≡ some caps)
    × (ltb_ℤ (required_bytes req.capacity_range) max_storage_capacity ≡ true)
    × ((w ≡ update v (skip_bytes 4 req.name) (some (requested req caps)))
        ⊎ (w ≡ update v (skip_bytes 4 req.name) none))

abbrev pub ExpandChanges : String → Option ℤ → View → View → Type 0
ExpandChanges id none v w = ⊥
ExpandChanges id (some capacity) v w = Resizes id capacity v w

-- The changes that a call may make, other than none.
abbrev pub Changes : NodeServer → Rpc → View → View → Type 0
Changes ns (create_volume_rpc req) v w = CreateChanges req v w
Changes ns (delete_volume_rpc id) v w = w ≡ update v id none
Changes ns (expand_rpc id range) v w = ExpandChanges id range v w
Changes ns (node_expand_rpc req) v w = ExpandChanges req.volume_id req.capacity_range v w
Changes ns (publish_rpc req) v w =
    (wants_ephemeral ns req ≡ true)
    × (w ≡ update v req.volume_id (some (ephemeral_info req.volume_id)))
Changes ns (unpublish_rpc id target) v w =
    (i : Info) × (v id ≡ some i) × (i.ephemeral ≡ true) × (w ≡ update v id none)
Changes ns _ v w = ⊥

abbrev pub Allowed : NodeServer → Rpc → View → View → Type 0
Allowed ns r v w = (w ≡ v) ⊎ Changes ns r v w

-- A list of calls, each of which does what is allowed for it. The process may end behind any of them.
pub data Behaves (ns : NodeServer) : List Rpc → View → View → Type 0 where
  ended : {v : View} → Behaves ns [] v v
  halted : {r : Rpc} {rs : List Rpc} {v w : View} → Allowed ns r v w → Behaves ns (r ∷ rs) v w
  served :
      {r : Rpc} {rs : List Rpc} {v w x : View}
      → Allowed ns r v w
      → Behaves ns rs w x
      → Behaves ns (r ∷ rs) v x
