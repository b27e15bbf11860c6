-- ===== src/Controller/Reuse.antt =====
-- How CreateVolume answers for a volume that is there already: the size is compared, then the source.
use csi_driver_flexblock.Prelude.Int.{ℤ, ltb_ℤ}
use csi_driver_flexblock.Go.Inversion.{require-bind}
use csi_driver_flexblock.Volume.{Volume}
use csi_driver_flexblock.Go.{already_exists, status, err, ◌>>◌, require, raise, pure, ok}
use csi_driver_flexblock.Controller.Create.{check_source, created, reuse_volume}
use csi_driver_flexblock.Csi.{
  improper_source, volume_source, snapshot_source, ContentSource, required_bytes,
  CreateVolumeRequest,
}
use csi_driver_flexblock.Env.{Globals}
use csi_driver_flexblock.Prelude.{
  eq_iff, ◌≢◌, arith, ap, inr, inl, ◌∙◌, Bool-cases, sym, ◌=ₛ◌, not, true, String, List, Option,
  none, some, ◌≡◌, refl,
}

ltb_ℤ_irrefl : (n : ℤ) → not (ltb_ℤ n n) ≡ true
ltb_ℤ_irrefl n = ground arith

-- A volume of the requested size is reused if its source passes the check.
pub reuse-sized :
    (req : CreateVolumeRequest) (nodes : List String) (vol : Volume) (s : Globals)
    → vol.vol_size ≡ required_bytes req.capacity_range
    → reuse_volume req nodes vol s
      ≡ (check_source vol req.volume_content_source
            >> pure (created req vol.vol_id vol.vol_size nodes))
          s
unfolding reuse_volume
reuse-sized req nodes vol s sized = require-bind _ _ _ s (
    ap (λ n. not (ltb_ℤ n (required_bytes req.capacity_range))) sized
    ∙ ltb_ℤ_irrefl (required_bytes req.capacity_range))

-- A request with no source, or with a snapshot.
abbrev pub CopiesNoVolume : Option ContentSource → Type 0
CopiesNoVolume none = Unit
CopiesNoVolume (some (snapshot_source id)) = Unit
CopiesNoVolume (some (volume_source id)) = ⊥
CopiesNoVolume (some improper_source) = ⊥

pub check_source-passes :
    (vol : Volume) (source : Option ContentSource) (s : Globals)
    → vol.parent_snap_id ≡ ""
    → CopiesNoVolume source
    → check_source vol source s ≡ (ok tt, s)
unfolding check_source pure require
check_source-passes vol none s top other = refl
check_source-passes vol (some (snapshot_source none)) s top other = refl
check_source-passes vol (some (snapshot_source (some id))) s top other = rw top refl
check_source-passes vol (some (volume_source id)) s top other = absurd other
check_source-passes vol (some improper_source) s top other = absurd other

pub check_source-refuses :
    (vol : Volume) (source : String) (s : Globals)
    → vol.parent_vol_id ≡ ""
    → source ≢ ""
    → check_source vol (some (volume_source (some source))) s ≡ (err (status already_exists), s)
unfolding check_source require raise
check_source-refuses vol source s top named = elim (Bool-cases (vol.parent_vol_id =ₛ source)) [
  | inl same ↦ absurd (named (sym ((eq_iff _ _).0 same) ∙ top))
  | inr differ ↦ rw differ refl
]
