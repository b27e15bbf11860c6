-- ===== src/Spec/Resized.antt =====
-- The calls that resize a volume, against what Spec.antt allows them.
use csi_driver_flexblock.Spec.Operations.{Leads-update}
use csi_driver_flexblock.Spec.View.{view-insert, view-found, info, view}
use csi_driver_flexblock.Spec.{Resizes}
use csi_driver_flexblock.Sys.Frame.{Frame-stat}
use csi_driver_flexblock.Go.Frame.{Frame-pure, Frame-raise}
use csi_driver_flexblock.Prelude.Int.{ltb_ℤ, ℤ}
use csi_driver_flexblock.Go.Leads.{
  Leads-first, Leads-wrap, Leads-if, Leads-bind, Leads-maybe, Leads-get_volume, Leads-Frame,
  Leads-require, Leads,
}
use csi_driver_flexblock.Go.{maybe}
use csi_driver_flexblock.Rpc.{expand_rpc, node_expand_rpc, Rpc}
use csi_driver_flexblock.Csi.{NodeExpandRequest}
use csi_driver_flexblock.Controller.Volumes.{controller_expand_volume, grow}
use csi_driver_flexblock.Node.Expand.{expand_checked, node_expand_volume, node_grow}
use csi_driver_flexblock.Volume.{insert, max_storage_capacity, lookup, Volume, Volumes}
use csi_driver_flexblock.Node.{NodeServer}
use csi_driver_flexblock.Env.{Env}
use csi_driver_flexblock.Prelude.{none, true, inr, some, inl, ◌≡◌, Option, String, refl}
use csi_driver_flexblock.Spec.Refines.{Left}

module _ (env : Env) (ns : NodeServer) (old : Volumes) where
  Leads-grow :
      (r : Rpc) (id : String) (vol : Volume) (capacity : ℤ)
      → lookup id old ≡ some vol
      → ltb_ℤ capacity max_storage_capacity ≡ true
      → (Resizes id capacity (view old) (view (insert id (record vol { vol_size = capacity }) old))
          → Left env ns old r (insert id (record vol { vol_size = capacity }) old))
      → Leads old (Left env ns old r) (grow env id vol capacity)
  unfolding grow
  Leads-grow r id vol capacity found below q =
      Leads-if (ltb_ℤ vol.vol_size capacity) _ _
        (λ larger.
          Leads-first _ _ (λ _. Frame-pure _)
            (Leads-wrap _ _ (
              Leads-update env old (Left env ns old r) (inl refl) id
                (record vol { vol_size = capacity })
                (q (
                  info vol,
                  view-found id old vol found,
                  larger,
                  below,
                  view-insert id (record vol { vol_size = capacity }) old,
                )))))
        (λ _. Leads-Frame (inl refl) _ (Frame-pure _))

  pub Leads-expand :
      (id : String) (range : Option ℤ)
      → Leads old (Left env ns old (expand_rpc id range)) (controller_expand_volume env id range)
  unfolding controller_expand_volume maybe
  Leads-expand id none =
      Leads-require (inl refl) _ _ _ λ _. Leads-Frame (inl refl) _ (Frame-raise _)
  Leads-expand id (some capacity) = Leads-require (inl refl) _ _ _ λ _.
      Leads-require (inl refl) _ _ _ λ below.
        Leads-get_volume (inl refl) _ _ _
          λ vol found. Leads-grow (expand_rpc id (some capacity)) id vol capacity found below inr

  Leads-node_grow :
      (req : NodeExpandRequest) (vol : Volume) (capacity : ℤ)
      → req.capacity_range ≡ some capacity
      → lookup req.volume_id old ≡ some vol
      → ltb_ℤ capacity max_storage_capacity ≡ true
      → Leads old (Left env ns old (node_expand_rpc req)) (node_grow env req.volume_id vol capacity)
  unfolding node_grow
  Leads-node_grow req vol capacity asked found below =
      Leads-if (ltb_ℤ vol.vol_size capacity) _ _
        (λ larger. Leads-wrap _ _ (
          Leads-update env old (Left env ns old (node_expand_rpc req)) (inl refl) req.volume_id
            (record vol { vol_size = capacity })
            (inr (
              rw asked (
                info vol,
                view-found req.volume_id old vol found,
                larger,
                below,
                view-insert req.volume_id (record vol { vol_size = capacity }) old,
              )))))
        (λ _. Leads-Frame (inl refl) _ (Frame-pure _))

  pub Leads-node_expand :
      (req : NodeExpandRequest)
      → Leads old (Left env ns old (node_expand_rpc req)) (node_expand_volume env req)
  unfolding node_expand_volume expand_checked
  Leads-node_expand req = Leads-require (inl refl) _ _ _ λ _.
      Leads-get_volume (inl refl) _ _ _ λ vol found. Leads-require (inl refl) _ _ _ λ _.
        Leads-maybe _ _ _ (Leads-Frame (inl refl) _ (Frame-raise _)) λ capacity asked.
          Leads-require (inl refl) _ _ _ λ below.
            Leads-bind (inl refl) _ _ (Frame-stat env _) λ found_mode.
              Leads-maybe found_mode _ _ (Leads-Frame (inl refl) _ (Frame-raise _)) λ mode _.
                Leads-require (inl refl) _ _ _
                  λ _. Leads-node_grow req vol capacity asked found below
