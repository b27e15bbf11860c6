-- ===== src/Csi.antt =====
-- The messages of the container storage interface, with the fields that the driver reads or sets.
use csi_driver_flexblock.Prelude.{false, true, String, Bool, Option, none, some, List}
use csi_driver_flexblock.Prelude.Int.{ℤ, pos}
use csi_driver_flexblock.Volume.{Timestamp}

-- the `access_type` of a volume capability, which is a oneof
pub data Access : Type 0 where
  block_volume : Access
  mount_volume : Access
  no_access : Access

abbrev pub wants_block : Access → Bool
wants_block block_volume = true
wants_block _ = false

abbrev pub wants_mount : Access → Bool
wants_mount mount_volume = true
wants_mount _ = false

-- the `type` of a volume content source, with the id in it; `none` is a nil message
pub data ContentSource : Type 0 where
  snapshot_source : Option String → ContentSource
  volume_source : Option String → ContentSource
  improper_source : ContentSource

-- A capacity range is its required bytes, and a nil one requires 0.
abbrev pub required_bytes : Option ℤ → ℤ
required_bytes none = pos 0
required_bytes (some n) = n

pub record CreateVolumeRequest : Type 0 where
  pub name : String
  pub volume_capabilities : Option (List Access)
  pub capacity_range : Option ℤ
  pub parameters : List (String × String)
  pub volume_content_source : Option ContentSource

pub record CsiVolume : Type 0 where
  pub volume_id : String
  pub capacity_bytes : ℤ
  pub volume_context : List (String × String)
  pub content_source : Option ContentSource
  -- the values of TopologyKeyNode
  pub accessible_topology : List String

pub record CsiSnapshot : Type 0 where
  pub snapshot_id : String
  pub source_volume_id : String
  pub creation_time : Option Timestamp
  pub size_bytes : ℤ
  pub ready_to_use : Bool

pub record ListSnapshotsRequest : Type 0 where
  pub snapshot_id : String
  pub source_volume_id : String
  pub max_entries : ℤ
  pub starting_token : String

pub record ListSnapshotsResponse : Type 0 where
  pub entries : List CsiSnapshot
  pub next_token : String

pub record ExpandResponse : Type 0 where
  pub capacity_bytes : ℤ
  pub node_expansion_required : Bool

pub record NodePublishRequest : Type 0 where
  pub volume_id : String
  pub target_path : String
  pub volume_capability : Option Access
  pub volume_context : List (String × String)
  pub readonly : Bool

pub record NodeExpandRequest : Type 0 where
  pub volume_id : String
  pub volume_path : String
  pub capacity_range : Option ℤ
