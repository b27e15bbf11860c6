-- ===== src/Spec/Refines.antt =====
-- The calls that make, publish and delete volumes, against what Spec.antt allows them.
use csi_driver_flexblock.Controller.Frame.{
  Frame-get_volume_by_id, Frame-populate, Frame-reuse_volume, Frame-get_volume_by_name,
  Frame-topologies,
}
use csi_driver_flexblock.Prelude.Text.{skip_bytes, byte_size, byte_size, skip_bytes}
use csi_driver_flexblock.Sys.Frame.{Frame-remove_all}
use csi_driver_flexblock.Node.Frame.{Frame-publish_volume, Frame-no_error, Frame-unmount_target}
use csi_driver_flexblock.Node.Unpublish.{delete_ephemeral, node_unpublish_volume}
use csi_driver_flexblock.Go.{says_not_exist, says_exist}
use csi_driver_flexblock.Node.Publish.{
  wants_ephemeral, publish_checked, node_publish_volume, create_ephemeral,
}
use csi_driver_flexblock.Spec.Operations.{Leads-create, Leads-delete}
use csi_driver_flexblock.Go.Frame.{
  Frame-crash, Frame-attempt, Frame-optional, Frame-if, Frame-wrap, Frame-bind, Frame-raise,
  Frame-pure,
}
use csi_driver_flexblock.Controller.Create.{
  requested_access, populate_or_delete, fresh_volume, create_or_reuse, create_volume,
}
use csi_driver_flexblock.Go.Leads.{
  Leads-attempt, Leads-then, Leads-bind, Leads-catch, Leads-maybe, Leads-get_volume, Leads-Frame,
  Leads-wrap, Leads-first, Leads-if, Leads-require, Leads,
}
use csi_driver_flexblock.Prelude.Int.{ltb_ℤ, ℤ}
use csi_driver_flexblock.Csi.{
  ContentSource, required_bytes, Access, NodePublishRequest, CreateVolumeRequest,
}
use csi_driver_flexblock.Spec.View.{update-update, view-erase, view-insert, view-found, info, view}
use csi_driver_flexblock.Spec.{requested, update, Allowed}
use csi_driver_flexblock.Controller.{validate_request, ControllerServer}
use csi_driver_flexblock.Controller.Volumes.{delete_volume}
use csi_driver_flexblock.Rpc.{unpublish_rpc, publish_rpc, delete_volume_rpc, create_volume_rpc, Rpc}
use csi_driver_flexblock.Volume.{AccessType, erase, max_storage_capacity, Volumes}
use csi_driver_flexblock.Node.{NodeServer}
use csi_driver_flexblock.Env.{Env}
use csi_driver_flexblock.Prelude.{
  false, ltb, ◌∙◌, inr, ap, ◌⊎◌, List, none, true, inl, some, ◌≡◌, Option, ℕ, refl, String,
}

module _ (env : Env) (ns : NodeServer) (old : Volumes) where
  -- what the call may leave, as a condition on the map
  abbrev pub Left : Rpc → Volumes → Type 0
  Left r new = Allowed ns r (view old) (view new)

  module _ (fuel : ℕ) (req : CreateVolumeRequest) (caps : List Access) where
    -- the map behind createFlexblockVolume
    abbrev Made : Volumes → Type 0
    Made new =
        (new ≡ old)
        ⊎ (view new ≡ update (view old) (skip_bytes 4 req.name) (some (requested req caps)))

    module _ (asked : req.volume_capabilities ≡ some caps)
        (below : ltb_ℤ (required_bytes req.capacity_range) max_storage_capacity ≡ true) where
      Left-Made : (mid : Volumes) → Made mid → Left (create_volume_rpc req) mid
      Left-Made mid (inl same) = inl (ap view same)
      Left-Made mid (inr made) = inr (caps, asked, below, inl made)

      Left-erased :
          (mid : Volumes)
          → Made mid
          → Left (create_volume_rpc req) (erase (skip_bytes 4 req.name) mid)
      Left-erased mid (inl same) = inr (
        caps,
        asked,
        below,
        inr (
            view-erase (skip_bytes 4 req.name) mid
            ∙ ap (λ vs. update (view vs) (skip_bytes 4 req.name) none) same),
      )
      Left-erased mid (inr made) = inr (
        caps,
        asked,
        below,
        inr (
            view-erase (skip_bytes 4 req.name) mid
            ∙ ap (λ v. update v (skip_bytes 4 req.name) none) made
            ∙ update-update (view old) (skip_bytes 4 req.name) (some (requested req caps)) none),
      )

      Leads-populate :
          (mid : Volumes)
          → Made mid
          → (capacity : ℤ) (access : AccessType) (source : Option ContentSource)
          → Leads mid
              (Left (create_volume_rpc req))
              (populate_or_delete env (skip_bytes 4 req.name) capacity access source)
      unfolding populate_or_delete
      Leads-populate mid made capacity access source =
          Leads-bind (Left-Made mid made) _ _
            (Frame-attempt _ (Frame-populate env capacity _ access source))
            λ error.
              Leads-maybe error _ _ (Leads-Frame (Left-Made mid made) _ (Frame-pure _)) λ e _.
                Leads-first _ _ (λ _. Frame-raise _)
                  (Leads-attempt _ (
                    Leads-delete env mid (Left (create_volume_rpc req)) (Left-Made mid made)
                      (skip_bytes 4 req.name) (Left-erased mid made)))

      Leads-fresh :
          (nodes : List String)
          → Leads old
              (Left (create_volume_rpc req))
              (fresh_volume env fuel req (requested_access caps) nodes)
      unfolding fresh_volume
      Leads-fresh nodes =
          Leads-if (ltb (byte_size req.name) 4) _ _ (λ _. Leads-Frame (inl refl) _ Frame-crash)
            λ _.
              Leads-then Made _ _ Left-Made
                (Leads-wrap _ _ (
                  Leads-create env old Made (inl refl) (skip_bytes 4 req.name) req.name
                    (required_bytes req.capacity_range) (requested_access caps) false fuel
                    λ vol new. inr (
                      view-insert (skip_bytes 4 req.name) vol old
                      ∙ ap (λ i. update (view old) (skip_bytes 4 req.name) (some i)) new)))
                λ mid made vol. Leads-first _ _ (λ _. Frame-pure _) (Leads-populate mid made _ _ _)

  pub Leads-create_volume :
      (fuel : ℕ) (cs : ControllerServer) (req : CreateVolumeRequest)
      → Leads old (Left (create_volume_rpc req)) (create_volume env fuel cs req)
  unfolding create_volume validate_request create_or_reuse
  Leads-create_volume fuel cs req = Leads-require (inl refl) _ _ _ λ _.
      Leads-require (inl refl) _ _ _ λ _.
        Leads-maybe _ _ _ (Leads-Frame (inl refl) _ (Frame-raise _)) λ caps asked.
          Leads-require (inl refl) _ _ _ λ _. Leads-require (inl refl) _ _ _ λ below.
            Leads-bind (inl refl) _ _ (Frame-topologies env cs) λ nodes.
              Leads-bind (inl refl) _ _ (Frame-optional _ (Frame-get_volume_by_name env _))
                λ existing.
                  Leads-maybe existing _ _ (Leads-fresh fuel req caps asked below nodes)
                    λ vol _. Leads-Frame (inl refl) _ (Frame-reuse_volume req nodes vol)

  pub Leads-delete_volume :
      (cs : ControllerServer) (id : String)
      → Leads old (Left (delete_volume_rpc id)) (delete_volume env cs id)
  unfolding delete_volume validate_request
  Leads-delete_volume cs id = Leads-require (inl refl) _ _ _ λ _.
      Leads-require (inl refl) _ _ _ λ _.
        Leads-wrap _ _ (
          Leads-delete env old (Left (delete_volume_rpc id)) (inl refl) id
            (inr (view-erase id old)))

  Leads-create_ephemeral :
      (fuel : ℕ) (req : NodePublishRequest)
      → wants_ephemeral ns req ≡ true
      → Leads old (Left (publish_rpc req)) (create_ephemeral env fuel req.volume_id)
  unfolding create_ephemeral
  Leads-create_ephemeral fuel req wants =
      Leads-catch _ _ (λ e. Frame-if (says_exist e) _ _ Frame-crash (Frame-raise _))
        (Leads-first _ _ (λ _. Frame-pure _)
          (Leads-create env old (Left (publish_rpc req)) (inl refl) req.volume_id _ _ _ _ fuel
            λ vol new. inr (
              wants,
              view-insert req.volume_id vol old
                  ∙ ap (λ i. update (view old) req.volume_id (some i)) new,
            )))

  pub Leads-publish :
      (fuel : ℕ) (req : NodePublishRequest)
      → Leads old (Left (publish_rpc req)) (node_publish_volume env fuel ns req)
  unfolding node_publish_volume publish_checked
  Leads-publish fuel req = Leads-maybe _ _ _ (Leads-Frame (inl refl) _ (Frame-raise _)) λ access _.
      Leads-require (inl refl) _ _ _ λ _. Leads-require (inl refl) _ _ _ λ _.
        Leads-first _ _
          (λ _.
            Frame-bind _ _ (Frame-wrap _ _ (Frame-get_volume_by_id _))
              λ vol. Frame-publish_volume env req access vol)
          (Leads-if (wants_ephemeral ns req) _ _ (Leads-create_ephemeral fuel req)
            (λ _. Leads-Frame (inl refl) _ (Frame-pure _)))

  pub Leads-unpublish :
      (id target : String)
      → Leads old (Left (unpublish_rpc id target)) (node_unpublish_volume env id target)
  unfolding node_unpublish_volume delete_ephemeral
  Leads-unpublish id target = Leads-require (inl refl) _ _ _ λ _.
      Leads-require (inl refl) _ _ _ λ _. Leads-get_volume (inl refl) _ _ _ λ vol found.
        Leads-bind (inl refl) _ _ (Frame-unmount_target env _) λ _.
          Leads-bind (inl refl) _ _ (Frame-remove_all env _) λ removed.
            Leads-bind (inl refl) _ _ (Frame-no_error removed) λ _.
              Leads-if vol.ephemeral _ _
                (λ marked.
                  Leads-catch _ _
                    (λ e. Frame-if (says_not_exist e) _ _ (Frame-pure _) (Frame-raise _))
                    (Leads-delete env old (Left (unpublish_rpc id target)) (inl refl) id
                      (inr (info vol, view-found id old vol found, marked, view-erase id old))))
                (λ _. Leads-Frame (inl refl) _ (Frame-pure _))
