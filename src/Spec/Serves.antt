-- ===== src/Spec/Serves.antt =====
-- The calls of Rpc.antt against the specification of Spec.antt.
use csi_driver_flexblock.Node.Frame.{Frame-node_unstage_volume, Frame-node_stage_volume}
use csi_driver_flexblock.Controller.Frame.{
  Frame-list_snapshots_rpc, Frame-create_snapshot, Frame-validate_volume_capabilities,
}
use csi_driver_flexblock.Sys.Frame.{Frame-remove_all}
use csi_driver_flexblock.Node.{node_get_volume_stats}
use csi_driver_flexblock.Spec.View.{view}
use csi_driver_flexblock.Spec.{halted, ended, served, halted, served, View, Behaves, Allowed}
use csi_driver_flexblock.Server.Laws.{log_grpc-same, before_handler}
use csi_driver_flexblock.Spec.Refines.{
  Leads-unpublish, Leads-publish, Leads-delete_volume, Leads-create_volume, Left,
}
use csi_driver_flexblock.Spec.Resized.{Leads-node_expand, Leads-expand}
use csi_driver_flexblock.Controller.{not_implemented, controller_get_capabilities, validate_request}
use csi_driver_flexblock.Controller.Snapshots.{drop_snapshot, delete_snapshot}
use csi_driver_flexblock.Go.Frame.{Frame-raise, Frame-require, Frame-pure, Frame-bind, Frame}
use csi_driver_flexblock.Go.Leads.{Leads-bind, Leads-require, Leads-Frame, Leads-first, Leads}
use csi_driver_flexblock.Rpc.{
  node_stats_rpc, node_capabilities_rpc, node_info_rpc, get_volume_rpc, list_volumes_rpc,
  get_capacity_rpc, controller_unpublish_rpc, controller_publish_rpc, controller_capabilities_rpc,
  plugin_capabilities_rpc, plugin_info_rpc, probe_rpc, node_expand_rpc, unstage_rpc, stage_rpc,
  unpublish_rpc, publish_rpc, list_rpc, create_snapshot_rpc, expand_rpc, validate_rpc,
  delete_volume_rpc, create_volume_rpc, method_of, delete_snapshot_rpc, next, done, handler, Rpc,
  serve,
}
use csi_driver_flexblock.Rpc.{handle, unpublish_rpc}
use csi_driver_flexblock.Go.{pending, panic, err, ok, modify, Result, Go}
use csi_driver_flexblock.Volume.{Volumes}
use csi_driver_flexblock.Identity.{get_plugin_capabilities, probe, get_plugin_info, Servers}
use csi_driver_flexblock.Env.{Globals, Env}
use csi_driver_flexblock.Prelude.{
  ap, sym, subst, inr, ◌=ₛ◌, [], Bool-cases, inl, ◌∷◌, ◌≡◌, List, ℕ, refl, String,
}

module _ (env : Env) (fuel : ℕ) (srv : Servers) where
  open srv use {ids, cs, ns}

  module _ (old : Volumes) where
    Leads-same : (r : Rpc) (m : Go (Unit {0})) → Frame m → Leads old (Left env ns old r) m
    Leads-same r m f = Leads-Frame (inl refl) m f

    Leads-done {ℓ} :
        {A : Type ℓ} (r : Rpc) (m : Go A)
        → Leads old (Left env ns old r) m
        → Leads old (Left env ns old r) (done m)
    Leads-done r m l = Leads-first _ _ (λ _. Frame-pure _) l

    Frame-done {ℓ} : {A : Type ℓ} (m : Go A) → Frame m → Frame (done m)
    Frame-done m f = Frame-bind _ _ f λ _. Frame-pure _

    Frame-plugin_info : Frame (get_plugin_info ids)
    unfolding get_plugin_info
    Frame-plugin_info =
        Frame-bind _ _ (Frame-require _ _) λ _. Frame-bind _ _ (Frame-require _ _) λ _. Frame-pure _

    Frame-delete_snapshot_volumes :
        (id : String)
        → Leads old (Left env ns old (delete_snapshot_rpc id)) (delete_snapshot env cs id)
    unfolding delete_snapshot validate_request drop_snapshot modify
    Frame-delete_snapshot_volumes id = Leads-require (inl refl) _ _ _ λ _.
        Leads-require (inl refl) _ _ _ λ _.
          Leads-bind (inl refl) _ _ (Frame-remove_all env _)
            λ _. record { at = λ s h. inl (ap view h) }

    Leads-handler : (r : Rpc) → Leads old (Left env ns old r) (handler env fuel srv r)
    unfolding handler probe get_plugin_capabilities controller_get_capabilities not_implemented
        node_get_volume_stats
    Leads-handler (create_volume_rpc req) =
        Leads-done (create_volume_rpc req) _ (Leads-create_volume env ns old fuel cs req)
    Leads-handler (delete_volume_rpc id) = Leads-delete_volume env ns old cs id
    Leads-handler (validate_rpc id caps) =
        Leads-same (validate_rpc id caps) _ (Frame-validate_volume_capabilities id caps)
    Leads-handler (expand_rpc id range) =
        Leads-done (expand_rpc id range) _ (Leads-expand env ns old id range)
    Leads-handler (create_snapshot_rpc name id) =
        Leads-same (create_snapshot_rpc name id) _
          (Frame-done _ (Frame-create_snapshot env cs name id))
    Leads-handler (delete_snapshot_rpc id) = Frame-delete_snapshot_volumes id
    Leads-handler (list_rpc req) =
        Leads-same (list_rpc req) _ (Frame-done _ (Frame-list_snapshots_rpc env cs req))
    Leads-handler (publish_rpc req) = Leads-publish env ns old fuel req
    Leads-handler (unpublish_rpc id target) = Leads-unpublish env ns old id target
    Leads-handler (stage_rpc id target access) =
        Leads-same (stage_rpc id target access) _ (Frame-node_stage_volume id target access)
    Leads-handler (unstage_rpc id target) =
        Leads-same (unstage_rpc id target) _ (Frame-node_unstage_volume id target)
    Leads-handler (node_expand_rpc req) = Leads-node_expand env ns old req
    Leads-handler probe_rpc = Leads-same probe_rpc _ (Frame-pure _)
    Leads-handler plugin_info_rpc = Leads-same plugin_info_rpc _ (Frame-done _ Frame-plugin_info)
    Leads-handler plugin_capabilities_rpc =
        Leads-same plugin_capabilities_rpc _ (Frame-done _ (Frame-pure _))
    Leads-handler controller_capabilities_rpc =
        Leads-same controller_capabilities_rpc _ (Frame-done _ (Frame-pure _))
    Leads-handler controller_publish_rpc = Leads-same controller_publish_rpc _ (Frame-raise _)
    Leads-handler controller_unpublish_rpc = Leads-same controller_unpublish_rpc _ (Frame-raise _)
    Leads-handler get_capacity_rpc = Leads-same get_capacity_rpc _ (Frame-raise _)
    Leads-handler list_volumes_rpc = Leads-same list_volumes_rpc _ (Frame-raise _)
    Leads-handler get_volume_rpc = Leads-same get_volume_rpc _ (Frame-raise _)
    Leads-handler node_info_rpc = Leads-same node_info_rpc _ (Frame-done _ (Frame-pure _))
    Leads-handler node_capabilities_rpc =
        Leads-same node_capabilities_rpc _ (Frame-done _ (Frame-pure _))
    Leads-handler node_stats_rpc = Leads-same node_stats_rpc _ (Frame-raise _)

  -- the map that logGRPC hands on
  pub before_handler-volumes :
      (h : Go (Unit {0})) (method : String) (s : Globals)
      → (before_handler h method s).volumes ≡ s.volumes
  before_handler-volumes h method s = elim (Bool-cases (method =ₛ "/csi.v1.Identity/Probe")) [
    | inl probed ↦ rw probed refl
    | inr other ↦ rw other refl
  ]

  -- A call makes a change that the specification allows it, or none.
  Allowed-handle :
      (r : Rpc) (s : Globals)
      → Allowed ns r (view s.volumes) (view (handle env fuel srv r s).1.volumes)
  unfolding handle
  Allowed-handle r s =
      let logged = log_grpc-same (handler env fuel srv r) (method_of r) s in
      subst (λ vs. Allowed ns r (view s.volumes) (view vs)) (sym logged.1)
        ((Leads-handler s.volumes r).at _
          (before_handler-volumes (handler env fuel srv r) (method_of r) s))

  Behaves-next :
      (r : Rpc) (rs : List Rpc) (answer : Result (Unit {0})) (v : View) (s t : Globals)
      → Allowed ns r v (view s.volumes)
      → Behaves ns rs (view s.volumes) (view t.volumes)
      → Behaves ns (r ∷ rs) v (view (next answer s t).volumes)
  Behaves-next r rs (ok u) v s t a b = served a b
  Behaves-next r rs (err e) v s t a b = served a b
  Behaves-next r rs panic v s t a b = halted a
  Behaves-next r rs pending v s t a b = halted a

  -- Whatever calls are served, and whatever the commands, the server and the file system answer, the
  -- volumes change as the specification allows for these calls in their order, up to the call that ends
  -- the process, if one does.
  pub Behaves-serve :
      (rs : List Rpc) (s : Globals)
      → Behaves ns rs (view s.volumes) (view (serve env fuel srv rs s).volumes)
  unfolding serve
  Behaves-serve [] s = ended
  Behaves-serve (r ∷ rs) s =
      Behaves-next r rs (handle env fuel srv r s).0 (view s.volumes) (handle env fuel srv r s).1 _
        (Allowed-handle r s) (Behaves-serve rs (handle env fuel srv r s).1)
