-- ===== src/Driver/Load.antt =====
-- pkg/flexblock/flexblock.go: loadFromSnapshot, loadFromVolume and the two functions that copy.
use csi_driver_flexblock.Prelude.Text.{◌<>◌}
use csi_driver_flexblock.Sys.{read_one}
use csi_driver_flexblock.Driver.Disk.{checked}
use csi_driver_flexblock.Prelude.Int.{ltb_ℤ, eq_ℤ, ℤ}
use csi_driver_flexblock.Go.{
  pure, require, ◌>>◌, internal, invalid_argument, not_found, maybe, status, raise, gets, ◌>>=◌, Go,
}
use csi_driver_flexblock.Volume.{
  block_access, mount_access, lookup, other_access, Volume, AccessType,
}
use csi_driver_flexblock.Env.{Env}
use csi_driver_flexblock.Prelude.{not, if◌then◌else◌, String, Bool, true, false, [], ◌∷◌}

abbrev pub same_access : AccessType → AccessType → Bool
same_access mount_access mount_access = true
same_access block_access block_access = true
same_access (other_access a) (other_access b) = eq_ℤ a b
same_access _ _ = false

module _ (env : Env) where
  -- the command that unpacks a snapshot
  unfoldable pub unpack : AccessType → String → String → Go (Unit {0})
  unpack mount_access snapshot_path dest_path =
      checked env ("tar" ∷ "zxvf" ∷ snapshot_path ∷ "-C" ∷ dest_path ∷ [])
  unpack block_access snapshot_path dest_path =
      checked env ("dd" ∷ ("if=" <> snapshot_path) ∷ ("of=" <> dest_path) ∷ [])
  unpack (other_access n) snapshot_path dest_path = raise (status invalid_argument)

  -- loadFromSnapshot
  unfoldable pub load_from_snapshot : ℤ → String → String → AccessType → Go (Unit {0})
  load_from_snapshot size snapshot_id dest_path mode = do
    found ← gets (λ s. lookup snapshot_id s.snapshots)
    maybe found (raise (status not_found)) λ snapshot. do
      require snapshot.ready_to_use (status internal)
      require (not (ltb_ℤ size snapshot.size_bytes)) (status invalid_argument)
      unpack mode snapshot.path dest_path

  -- loadFromFilesystemVolume, with flexBlockIsEmpty
  unfoldable pub load_from_filesystem_volume : Volume → String → Go (Unit {0})
  load_from_filesystem_volume vol dest_path = do
    empty ← read_one env vol.vol_path
    maybe empty (raise (status internal)) λ is_empty.
        if is_empty
        then pure tt
        else checked env ("cp" ∷ "-a" ∷ (vol.vol_path <> "/.") ∷ (dest_path <> "/") ∷ [])

  -- loadFromBlockVolume
  unfoldable pub load_from_block_volume : Volume → String → Go (Unit {0})
  load_from_block_volume vol dest_path =
      checked env ("dd" ∷ ("if=" <> vol.vol_path) ∷ ("of=" <> dest_path) ∷ [])

  -- the switch of loadFromVolume
  unfoldable pub copy_volume : AccessType → Volume → String → Go (Unit {0})
  copy_volume mount_access vol dest_path = load_from_filesystem_volume vol dest_path
  copy_volume block_access vol dest_path = load_from_block_volume vol dest_path
  copy_volume (other_access n) vol dest_path = raise (status invalid_argument)

  -- loadFromVolume
  unfoldable pub load_from_volume : ℤ → String → String → AccessType → Go (Unit {0})
  load_from_volume size src_volume_id dest_path mode = do
    found ← gets (λ s. lookup src_volume_id s.volumes)
    maybe found (raise (status not_found)) λ vol. do
      require (not (ltb_ℤ size vol.vol_size)) (status invalid_argument)
      require (same_access mode vol.vol_access_type) (status invalid_argument)
      copy_volume mode vol dest_path
