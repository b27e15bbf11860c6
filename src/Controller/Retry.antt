-- ===== src/Controller/Retry.antt =====
-- CreateVolume, called again with the request that made a volume.
use csi_driver_flexblock.Controller.Checks.{
  lookup-bind, Passes-of_ok, Passes-run, Passes, branch, after_nodes,
}
use csi_driver_flexblock.Controller.Reuse.{
  check_source-refuses, check_source-passes, reuse-sized, CopiesNoVolume,
}
use csi_driver_flexblock.Controller.Made.{state_of, populated, reply_of, Made-of, Made}
use csi_driver_flexblock.Store.Range.{find-range_insert, find-range_none, RangesOver}
use csi_driver_flexblock.Driver.Create.{create_flexblock_volume}
use csi_driver_flexblock.Driver.Laws.{Created-create}
use csi_driver_flexblock.Go.Inversion.{maybe-none, wrap_inv, panic_ne_ok, bind_inv, maybe-some}
use csi_driver_flexblock.Store.{find_volume_name}
use csi_driver_flexblock.Volume.{AccessType}
use csi_driver_flexblock.Prelude.Text.{byte_size, skip_bytes, byte_size, skip_bytes}
use csi_driver_flexblock.Go.{
  panic, ◌>>◌, already_exists, status, err, wrap, internal, Result, crash, pure, ok, ◌>>=◌,
}
use csi_driver_flexblock.Controller.Create.{
  check_source, created, reuse_volume, requested_access, fresh_volume, create_volume,
}
use csi_driver_flexblock.Csi.{
  ContentSource, volume_source, required_bytes, CsiVolume, Access, CreateVolumeRequest,
}
use csi_driver_flexblock.Controller.{ControllerServer}
use csi_driver_flexblock.Env.{Env, Globals}
use csi_driver_flexblock.Prelude.{
  arith, ◌<◌, ◌≢◌, false, ap, inr, ltb, inl, ◌∙◌, Bool-cases, sym, true, String, ℕ, List, Option,
  none, some, ◌≡◌, refl,
}

below_four : (n : ℕ) → n < 4 → ltb n 4 ≡ true
below_four n short = ground arith

module _ (env : Env) (fuel : ℕ) (cs : ControllerServer) (req : CreateVolumeRequest) where
  pub Made-fresh :
      (access : AccessType) (nodes : List String) (s t : Globals) (v : CsiVolume)
      → fresh_volume env fuel req access nodes s ≡ (ok v, t)
      → Made req s.volumes v t.volumes
  unfolding fresh_volume wrap
  Made-fresh access nodes s t v h = elim (Bool-cases (ltb (byte_size req.name) 4)) [
    | inl short ↦
        absurd (
          unfold crash in
          panic_ne_ok (ap (λ (p : Result CsiVolume × Globals). p.0) (rw short at h)))
    | inr long ↦
        let a = bind_inv _ _ s (rw long at h) in
        let b = bind_inv _ _ _ a.2 in
        let made =
          wrap_inv internal
            (create_flexblock_volume env fuel (skip_bytes 4 req.name) req.name
              (required_bytes req.capacity_range) access false)
            s a.1 in
        let laws = rw made at (
          Created-create env (skip_bytes 4 req.name) req.name (required_bytes req.capacity_range)
            access false fuel s) in
        Made-of req s
          (create_flexblock_volume env fuel (skip_bytes 4 req.name) req.name
            (required_bytes req.capacity_range) access false s).1
          t access a.0 v nodes laws (reply_of _ v _ t b.2)
          (populated env (skip_bytes 4 req.name) (required_bytes req.capacity_range) access
            req.volume_content_source _ b.0 t (λ i. (b.1 i, state_of _ v _ t b.2 i)))
  ]

  Made-created :
      (s t : Globals) (v : CsiVolume)
      → RangesOver env
      → find_volume_name req.name s.volumes ≡ none
      → create_volume env fuel cs req s ≡ (ok v, t)
      → (caps : List Access) × Passes env fuel cs req caps × Made req s.volumes v t.volumes
  unfolding branch
  Made-created s t v ranges absent h =
      let (caps, passes, run) = Passes-of_ok env fuel cs req s t v h in
      (
        caps,
        passes,
        Made-fresh (requested_access caps) _ (after_nodes s) t v (
            sym (
              lookup-bind env req.name _ (after_nodes s)
              ∙ maybe-none _ _ _ (after_nodes s)
                  (find-range_none env ranges _ req.name s.volumes absent))
            ∙ run),
      )

  Replayed :
      (s t : Globals) (v : CsiVolume)
      → RangesOver env
      → find_volume_name req.name s.volumes ≡ none
      → create_volume env fuel cs req s ≡ (ok v, t)
      → (m : Made req s.volumes v t.volumes) × (nodes : List String) × (create_volume env fuel cs
            req t
          ≡ reuse_volume req nodes m.vol (after_nodes t))
  unfolding branch
  Replayed s t v ranges absent h =
      let (caps, passes, m) = Made-created s t v ranges absent h in
      (
        m,
        _,
        Passes-run env fuel cs req t caps passes
            ∙ lookup-bind env req.name _ (after_nodes t)
            ∙ maybe-some _ _ _ (after_nodes t) m.vol (
                ap (λ vs. find_volume_name req.name (env.range_volumes (after_nodes t).calls vs))
                  m.at_insert
                ∙ find-range_insert env ranges _ req.name (skip_bytes 4 req.name) m.vol s.volumes
                    absent m.named),
      )

  -- If a range over a map visits its entries and no others, and no volume had the request's name, then a
  -- CreateVolume that succeeds, with no source or with a snapshot, can be sent again: the second call
  -- succeeds, replies the same id and size, and only reads the node list.
  pub create_volume-again :
      (s t : Globals) (v : CsiVolume)
      → RangesOver env
      → CopiesNoVolume req.volume_content_source
      → find_volume_name req.name s.volumes ≡ none
      → create_volume env fuel cs req s ≡ (ok v, t)
      → (w : CsiVolume) × (create_volume env fuel cs req t ≡ (ok w, after_nodes t))
        × (w.volume_id ≡ v.volume_id)
        × (w.capacity_bytes ≡ v.capacity_bytes)
  unfolding ◌>>=◌ pure
  create_volume-again s t v ranges other absent h =
      let (m, nodes, again) = Replayed s t v ranges absent h in
      (
        created req m.vol.vol_id m.vol.vol_size nodes,
        again
            ∙ reuse-sized req nodes m.vol (after_nodes t) m.sized
            ∙ rw
                (check_source-passes m.vol req.volume_content_source (after_nodes t)
                  m.no_parent_snapshot other)
                refl,
        m.identified ∙ sym m.replied_id,
        m.sized ∙ sym m.replied_size,
      )

  -- If a range over a map visits its entries and no others, and no volume had the request's name, then a
  -- CreateVolume that succeeds in cloning a volume, sent again, is answered that the volume exists
  -- already: the clone is kept with no parent.
  pub create_volume-refused :
      (s t : Globals) (v : CsiVolume) (source : String)
      → RangesOver env
      → req.volume_content_source ≡ some (volume_source (some source))
      → source ≢ ""
      → find_volume_name req.name s.volumes ≡ none
      → create_volume env fuel cs req s ≡ (ok v, t)
      → create_volume env fuel cs req t ≡ (err (status already_exists), after_nodes t)
  unfolding ◌>>=◌
  create_volume-refused s t v source ranges clones named absent h =
      let (m, nodes, again) = Replayed s t v ranges absent h in
      again
      ∙ reuse-sized req nodes m.vol (after_nodes t) m.sized
      ∙ ap
          (λ (from : Option ContentSource).
            (check_source m.vol from >> pure (created req m.vol.vol_id m.vol.vol_size nodes))
              (after_nodes t))
          clones
      ∙ rw (check_source-refuses m.vol source (after_nodes t) m.no_parent_volume named) refl

  -- If a range over a map visits its entries and no others, then a request that passes the checks, for
  -- a name of fewer than four bytes that no volume has, makes CreateVolume panic, and only
  -- the node list is read before that.
  pub create_volume-short_name :
      (s : Globals) (caps : List Access)
      → RangesOver env
      → Passes env fuel cs req caps
      → find_volume_name req.name s.volumes ≡ none
      → byte_size req.name < 4
      → create_volume env fuel cs req s ≡ (panic, after_nodes s)
  unfolding branch fresh_volume crash
  create_volume-short_name s caps ranges passes absent short =
      Passes-run env fuel cs req s caps passes
      ∙ lookup-bind env req.name _ (after_nodes s)
      ∙ maybe-none _ _ _ (after_nodes s) (find-range_none env ranges _ req.name s.volumes absent)
      ∙ rw (below_four (byte_size req.name) short) refl
