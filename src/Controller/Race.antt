-- ===== src/Controller/Race.antt =====
-- Two calls of CreateVolume for one name, neither of which has made its volume when the other looks for it.
use csi_driver_flexblock.Prelude.Text.{skip_bytes, skip_bytes}
use csi_driver_flexblock.Go.Inversion.{ok_inj, maybe-none}
use csi_driver_flexblock.Controller.Frame.{Frame-topologies}
use csi_driver_flexblock.Controller.Create.{requested_access}
use csi_driver_flexblock.Controller.Retry.{Made-fresh}
use csi_driver_flexblock.Controller.Made.{Made}
use csi_driver_flexblock.Go.{Result, ok, optional}
use csi_driver_flexblock.Go.Ends.{Ends-pure, Ends-bind, Ends-raise, Ends-maybe, Ends-require, Ends}
use csi_driver_flexblock.Csi.{required_bytes, CsiVolume, CreateVolumeRequest}
use csi_driver_flexblock.Controller.{validate_request, ControllerServer}
use csi_driver_flexblock.Store.{get_volume_by_name, find_volume_name}
use csi_driver_flexblock.Controller.Steps.{look_for, act, look, Looked}
use csi_driver_flexblock.Store.Range.{find-range_none, RangesOver}
use csi_driver_flexblock.Env.{Globals, Env}
use csi_driver_flexblock.Volume.{lookup-insert, lookup, Volume, Volumes}
use csi_driver_flexblock.Prelude.{eq_iff, some, sym, ◌∙◌, ap, none, ◌≡◌, ℕ, String, refl}

-- what the look for a volume of a name gives where there is none
abbrev NoneFound : Volumes → Looked → Globals → Type 0
NoneFound vs looked s = (s.volumes ≡ vs) × (looked.existing ≡ none)

module _ (env : Env) (ranges : RangesOver env) where
  module _ (name : String) (vs : Volumes) (absent : find_volume_name name vs ≡ none) where
    abbrev Still : Globals → Type 0
    Still s = s.volumes ≡ vs

    Ends-search :
        Ends Still
          (λ found s. (s.volumes ≡ vs) × (found ≡ none))
          (optional (get_volume_by_name env name))
    unfolding optional get_volume_by_name
    Ends-search = record {
      at = λ s h found r.
          let nothing =
            find-range_none env ranges s.calls name s.volumes
              (ap (find_volume_name name) h ∙ absent) in
          (h, sym (ok_inj (rw nothing at r)));
    }

  Ends-look :
      (cs : ControllerServer) (req : CreateVolumeRequest) (vs : Volumes)
      → find_volume_name req.name vs ≡ none
      → Ends (λ s. s.volumes ≡ vs) (NoneFound vs) (look env cs req)
  unfolding look look_for validate_request
  Ends-look cs req vs absent = Ends-require _ _ _ λ _. Ends-require _ _ _ λ _.
      Ends-maybe _ _ _ (λ _. Ends-raise _)
        λ caps _. Ends-require _ _ _ λ _. Ends-require _ _ _ λ _.
          Ends-bind (λ _ s. s.volumes ≡ vs) _ _
            (record { at = λ s h nodes r. (Frame-topologies env cs).volumes s ∙ h })
            λ nodes.
              Ends-bind (λ found s. (s.volumes ≡ vs) × (found ≡ none)) _ _
                (Ends-search req.name vs absent) λ found. Ends-pure _ (λ s p. p)

  Made-act :
      (fuel : ℕ) (cs : ControllerServer) (req : CreateVolumeRequest) (looked : Looked)
      (s t : Globals) (v : CsiVolume)
      → looked.existing ≡ none
      → act env fuel req looked s ≡ (ok v, t)
      → Made req s.volumes v t.volumes
  unfolding act
  Made-act fuel cs req looked s t v nothing h =
      Made-fresh env fuel cs req (requested_access looked.caps) looked.nodes s t v
        (sym (maybe-none _ _ _ s nothing) ∙ h)

  -- If a range over a map visits its entries and no others, no volume has the name that two requests ask for,
  -- and the second call looks for it before the first has made its volume, then, where both succeed, they
  -- answer one id, the first answers the size that it was asked for, and the volume of that id is left
  -- with the size that the second was asked for.
  pub create_volume-race :
      (fuel : ℕ) (cs : ControllerServer) (r1 r2 : CreateVolumeRequest) (l1 l2 : Looked)
      (v1 v2 : CsiVolume) (s0 s1 s2 s3 s4 : Globals)
      → r1.name ≡ r2.name
      → find_volume_name r1.name s0.volumes ≡ none
      → look env cs r1 s0 ≡ (ok l1, s1)
      → look env cs r2 s1 ≡ (ok l2, s2)
      → act env fuel r1 l1 s2 ≡ (ok v1, s3)
      → act env fuel r2 l2 s3 ≡ (ok v2, s4)
      → (v1.volume_id ≡ v2.volume_id)
        × (v1.capacity_bytes ≡ required_bytes r1.capacity_range)
        × ((vol : Volume) × (lookup v1.volume_id s4.volumes ≡ some vol)
            × (vol.vol_size ≡ required_bytes r2.capacity_range))
  create_volume-race fuel cs r1 r2 l1 l2 v1 v2 s0 s1 s2 s3 s4 same absent look1 look2 act1 act2 =
      let (at1, none1) = (Ends-look cs r1 s0.volumes absent).at s0 refl l1 (ap (λ p. p.0) look1) in
      let kept1 = ap (λ (p : Result Looked × Globals). p.1.volumes) (sym look1) ∙ at1 in
      let (at2, none2) =
        (Ends-look cs r2 s0.volumes (rw (sym same) absent)).at s1 kept1 l2 (ap (λ p. p.0) look2) in
      let m1 = Made-act fuel cs r1 l1 s2 s3 v1 none1 act1 in
      let m2 = Made-act fuel cs r2 l2 s3 s4 v2 none2 act2 in
      let one_id = m1.replied_id ∙ ap (skip_bytes 4) same in
      (
        one_id ∙ sym m2.replied_id,
        m1.replied_size,
        (
          m2.vol,
          ap (lookup v1.volume_id) m2.at_insert
              ∙ lookup-insert (skip_bytes 4 r2.name) v1.volume_id m2.vol s3.volumes
              ∙ rw ((eq_iff (skip_bytes 4 r2.name) v1.volume_id).1 (sym one_id)) refl,
          m2.sized,
        ),
      )
