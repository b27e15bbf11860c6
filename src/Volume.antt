-- ===== src/Volume.antt =====
-- The records of pkg/flexblock/flexblock.go that the driver keeps: volumes, snapshots, and the maps
-- that hold them. A Go map is an association list; `flexBlockVolumes` and the others are globals.
use csi_driver_flexblock.Prelude.{
  ℕ, String, ◌≡◌, Bool, true, false, Option, none, some, List, [], ◌∷◌, arith, ◌=ₛ◌, eq_iff,
  if◌then◌else◌, ◌*◌,
}
use csi_driver_flexblock.Prelude.Int.{ℤ, pos}

abbrev pub mib : ℕ
mib = 1024 * 1024

abbrev pub tib : ℕ
tib = 1024 * 1024 * 1024 * 1024

abbrev pub max_storage_capacity : ℤ
max_storage_capacity = pos tib

-- `accessType` is an int, and a decoded file may hold one that is no constant of the source.
pub data AccessType : Type 0 where
  mount_access : AccessType
  block_access : AccessType
  other_access : ℤ → AccessType

abbrev pub is_mount : AccessType → Bool
is_mount mount_access = true
is_mount _ = false

abbrev pub is_block : AccessType → Bool
is_block block_access = true
is_block _ = false

pub record Volume : Type 0 where
  pub vol_name : String
  pub vol_id : String
  pub vol_size : ℤ
  pub vol_path : String
  pub vol_access_type : AccessType
  pub parent_vol_id : String
  pub parent_snap_id : String
  pub ephemeral : Bool

-- `*timestamp.Timestamp`, of golang/protobuf
pub record Timestamp : Type 0 where
  pub seconds : ℤ
  pub nanos : ℤ

pub record Snapshot : Type 0 where
  pub name : String
  pub id : String
  pub vol_id : String
  pub path : String
  pub creation_time : Option Timestamp
  pub size_bytes : ℤ
  pub ready_to_use : Bool

module _ {ℓ} {V : Type ℓ} where
  -- m[k], v, ok := m[k]
  unfoldable pub lookup : String → List (String × V) → Option V
  lookup k [] = none
  lookup k ((j, v) ∷ m) = if j =ₛ k then some v else lookup k m

  -- delete(m, k)
  unfoldable pub erase : String → List (String × V) → List (String × V)
  erase k [] = []
  erase k ((j, v) ∷ m) = let rest = erase k m in if j =ₛ k then rest else (j, v) ∷ rest

  -- m[k] = v
  unfoldable pub insert : String → V → List (String × V) → List (String × V)
  insert k v m = (k, v) ∷ erase k m

  pub lookup-erase :
      (k j : String) (m : List (String × V))
      → lookup j (erase k m) ≡ (if k =ₛ j then none else lookup j m)
  unfolding lookup erase
  lookup-erase k j [] = ground arith
  lookup-erase k j ((i, v) ∷ m) =
      ground (arith, lookup-erase k j m, eq_iff i k, eq_iff i j, eq_iff k j)

  pub lookup-insert :
      (k j : String) (v : V) (m : List (String × V))
      → lookup j (insert k v m) ≡ (if k =ₛ j then some v else lookup j m)
  unfolding lookup insert
  lookup-insert k j v m = ground (arith, lookup-erase k j m)

abbrev pub Volumes : Type 0
Volumes = List (String × Volume)

abbrev pub Snapshots : Type 0
Snapshots = List (String × Snapshot)

-- A missing key of a map of strings reads as the empty string.
unfoldable pub value_of : String → List (String × String) → String
unfolding lookup
value_of k m = elim (lookup k m) [ none ↦ "" | some v ↦ v ]
