-- ===== src/Rpc/Induction.antt =====
-- An invariant of the driver's state that creating, deleting and resizing a volume keep is kept by the
-- calls of the node, and so by every list of calls.
use csi_driver_flexblock.Server.Laws.{Keeps-log_grpc}
use csi_driver_flexblock.Identity.{get_plugin_capabilities, get_plugin_info, probe, Servers}
use csi_driver_flexblock.Rpc.Invariant.{
  Keeps-delete_snapshot, below_max, Keeps-expand, Keeps-Frame, Keeps-delete_volume,
  Keeps-get_volume, Keeps-create_volume, Invariant,
}
use csi_driver_flexblock.Node.Frame.{
  Frame-node_unstage_volume, Frame-node_stage_volume, Frame-publish_volume, Frame-no_error,
  Frame-unmount_target,
}
use csi_driver_flexblock.Rpc.{
  node_stats_rpc, node_capabilities_rpc, node_info_rpc, get_volume_rpc, list_volumes_rpc,
  get_capacity_rpc, controller_unpublish_rpc, controller_publish_rpc, controller_capabilities_rpc,
  plugin_capabilities_rpc, plugin_info_rpc, probe_rpc, method_of, handler, next,
  create_snapshot_rpc, node_expand_rpc, unstage_rpc, stage_rpc, unpublish_rpc, publish_rpc,
  list_rpc, delete_snapshot_rpc, expand_rpc, validate_rpc, delete_volume_rpc, create_volume_rpc,
  Rpc, serve, handle, done,
}
use csi_driver_flexblock.Node.Unpublish.{delete_ephemeral, node_unpublish_volume}
use csi_driver_flexblock.Node.{node_get_volume_stats, NodeServer}
use csi_driver_flexblock.Node.Publish.{
  wants_ephemeral, publish_checked, create_ephemeral, node_publish_volume,
}
use csi_driver_flexblock.Sys.Frame.{Frame-remove_all, Frame-stat}
use csi_driver_flexblock.Controller.Frame.{
  Frame-list_snapshots_rpc, Frame-create_snapshot, Frame-validate_volume_capabilities,
}
use csi_driver_flexblock.Volume.{mount_access, max_storage_capacity, Volume}
use csi_driver_flexblock.Go.Keeps.{
  Keeps-catch, Keeps-pure, Keeps-require_bind, Keeps-raise, Keeps-wrap, Keeps-crash, Keeps-maybe,
  Keeps-require, Keeps-if, Keeps-bind, Keeps,
}
use csi_driver_flexblock.Csi.{NodePublishRequest, NodeExpandRequest}
use csi_driver_flexblock.Controller.{not_implemented, controller_get_capabilities}
use csi_driver_flexblock.Go.{pending, panic, err, ok, Result, says_exist, says_not_exist, Go}
use csi_driver_flexblock.Node.Expand.{expand_checked, node_grow, node_expand_volume}
use csi_driver_flexblock.Env.{Globals, Env}
use csi_driver_flexblock.Prelude.Int.{◌≤ℤ◌, ltb_ℤ, ℤ}
use csi_driver_flexblock.Prelude.{[], ◌∷◌, Bool-cases, inr, inl, arith, true, String, ℕ, List}

module _ (env : Env) (inv : Invariant env) where
  open inv use {Holds, Knows, framed, kept_by_create, kept_by_delete, kept_by_update}

  Keeps-node_grow :
      (id : String) (vol : Volume) (capacity : ℤ)
      → Knows id vol
      → capacity ≤ℤ max_storage_capacity
      → Keeps Holds (node_grow env id vol capacity)
  unfolding node_grow
  Keeps-node_grow id vol capacity k b = elim (Bool-cases (ltb_ℤ vol.vol_size capacity)) [
    | inl smaller ↦ rw smaller (Keeps-wrap _ _ (kept_by_update id vol capacity k b))
    | inr enough ↦ rw enough (Keeps-pure _)
  ]

  Keeps-node_expand : (req : NodeExpandRequest) → Keeps Holds (node_expand_volume env req)
  unfolding node_expand_volume expand_checked
  Keeps-node_expand req = Keeps-bind _ _ (Keeps-require _ _) λ _.
      Keeps-get_volume env inv _ _ _ λ vol k. Keeps-bind _ _ (Keeps-require _ _) λ _.
        Keeps-maybe _ _ _ (Keeps-raise _) λ capacity. Keeps-require_bind _ _ _ λ below.
          Keeps-bind _ _ (Keeps-Frame env inv _ (Frame-stat env _)) λ info.
            Keeps-maybe _ _ _ (Keeps-raise _) λ mode.
              Keeps-bind _ _ (Keeps-require _ _)
                λ _. Keeps-node_grow req.volume_id vol capacity k (below_max capacity below)

  Keeps-create_ephemeral : (fuel : ℕ) (id : String) → Keeps Holds (create_ephemeral env fuel id)
  unfolding create_ephemeral
  Keeps-create_ephemeral fuel id =
      Keeps-catch _ _ (λ e. Keeps-if (says_exist e) _ _ (λ _. Keeps-crash) (λ _. Keeps-raise _))
        (Keeps-bind _ _ (kept_by_create fuel id _ _ mount_access true (omega arith))
          λ vol. Keeps-pure _)

  Keeps-publish :
      (fuel : ℕ) (ns : NodeServer) (req : NodePublishRequest)
      → Keeps Holds (node_publish_volume env fuel ns req)
  unfolding node_publish_volume publish_checked
  Keeps-publish fuel ns req = Keeps-maybe _ _ _ (Keeps-raise _) λ access.
      Keeps-bind _ _ (Keeps-require _ _) λ _. Keeps-bind _ _ (Keeps-require _ _) λ _.
        Keeps-bind _ _
          (Keeps-if (wants_ephemeral ns req) _ _ (λ _. Keeps-create_ephemeral fuel _)
            (λ _. Keeps-pure _))
          λ _.
            Keeps-get_volume env inv _ _ _
              λ vol k. Keeps-Frame env inv _ (Frame-publish_volume env req access vol)

  Keeps-delete_ephemeral : (vol : Volume) (id : String) → Keeps Holds (delete_ephemeral env vol id)
  unfolding delete_ephemeral
  Keeps-delete_ephemeral vol id =
      Keeps-if vol.ephemeral _ _
        (λ _.
          Keeps-catch _ _
            (λ e. Keeps-if (says_not_exist e) _ _ (λ _. Keeps-pure _) (λ _. Keeps-raise _))
            (kept_by_delete id))
        (λ _. Keeps-pure _)

  Keeps-unpublish : (id target : String) → Keeps Holds (node_unpublish_volume env id target)
  unfolding node_unpublish_volume
  Keeps-unpublish id target = Keeps-bind _ _ (Keeps-require _ _) λ _.
      Keeps-bind _ _ (Keeps-require _ _) λ _. Keeps-get_volume env inv _ _ _ λ vol k.
        Keeps-bind _ _ (Keeps-Frame env inv _ (Frame-unmount_target env _)) λ _.
          Keeps-bind _ _ (Keeps-Frame env inv _ (Frame-remove_all env _)) λ removed.
            Keeps-bind _ _ (Keeps-Frame env inv _ (Frame-no_error removed))
              λ _. Keeps-delete_ephemeral vol id

  Keeps-done {ℓ} : {A : Type ℓ} (m : Go A) → Keeps Holds m → Keeps Holds (done m)
  Keeps-done m k = Keeps-bind _ _ k λ a. Keeps-pure _

  module _ (fuel : ℕ) (srv : Servers) where
    open srv use {ids, cs, ns}

    Keeps-handler : (r : Rpc) → Keeps Holds (handler env fuel srv r)
    unfolding handler probe get_plugin_info get_plugin_capabilities controller_get_capabilities
        not_implemented node_get_volume_stats
    Keeps-handler (create_volume_rpc req) = Keeps-done _ (Keeps-create_volume env inv fuel cs req)
    Keeps-handler (delete_volume_rpc id) = Keeps-delete_volume env inv cs id
    Keeps-handler (validate_rpc id caps) =
        Keeps-Frame env inv _ (Frame-validate_volume_capabilities id caps)
    Keeps-handler (expand_rpc id range) = Keeps-done _ (Keeps-expand env inv id range)
    Keeps-handler (create_snapshot_rpc name id) =
        Keeps-done _ (Keeps-Frame env inv _ (Frame-create_snapshot env cs name id))
    Keeps-handler (delete_snapshot_rpc id) = Keeps-delete_snapshot env inv cs id
    Keeps-handler (list_rpc req) =
        Keeps-done _ (Keeps-Frame env inv _ (Frame-list_snapshots_rpc env cs req))
    Keeps-handler (publish_rpc req) = Keeps-publish fuel ns req
    Keeps-handler (unpublish_rpc id target) = Keeps-unpublish id target
    Keeps-handler (stage_rpc id target access) =
        Keeps-Frame env inv _ (Frame-node_stage_volume id target access)
    Keeps-handler (unstage_rpc id target) =
        Keeps-Frame env inv _ (Frame-node_unstage_volume id target)
    Keeps-handler (node_expand_rpc req) = Keeps-node_expand req
    Keeps-handler probe_rpc = Keeps-pure _
    Keeps-handler plugin_info_rpc = Keeps-done _ (
        Keeps-bind _ _ (Keeps-require _ _)
          λ _. Keeps-bind _ _ (Keeps-require _ _) λ _. Keeps-pure _)
    Keeps-handler plugin_capabilities_rpc = Keeps-done _ (Keeps-pure _)
    Keeps-handler controller_capabilities_rpc = Keeps-done _ (Keeps-pure _)
    Keeps-handler controller_publish_rpc = Keeps-raise _
    Keeps-handler controller_unpublish_rpc = Keeps-raise _
    Keeps-handler get_capacity_rpc = Keeps-raise _
    Keeps-handler list_volumes_rpc = Keeps-raise _
    Keeps-handler get_volume_rpc = Keeps-raise _
    Keeps-handler node_info_rpc = Keeps-done _ (Keeps-pure _)
    Keeps-handler node_capabilities_rpc = Keeps-done _ (Keeps-pure _)
    Keeps-handler node_stats_rpc = Keeps-raise _

    pub Keeps-handle : (r : Rpc) → Keeps Holds (handle env fuel srv r)
    unfolding handle
    Keeps-handle r = Keeps-log_grpc _ (method_of r) framed (Keeps-handler r)

    holds_next : (r : Result (Unit {0})) (s t : Globals) → Holds s → Holds t → Holds (next r s t)
    holds_next (ok u) s t p q = q
    holds_next (err e) s t p q = q
    holds_next panic s t p q = p
    holds_next pending s t p q = p

    pub serve_induction : (rs : List Rpc) (s : Globals) → Holds s → Holds (serve env fuel srv rs s)
    unfolding serve
    serve_induction [] s p = p
    serve_induction (r ∷ rs) s p =
        let kept : Holds (handle env fuel srv r s).1 = (Keeps-handle r).at s p in
        holds_next (handle env fuel srv r s).0 _ _ kept (serve_induction rs _ kept)
