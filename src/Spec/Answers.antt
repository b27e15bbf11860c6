-- ===== src/Spec/Answers.antt =====
-- The calls of Rpc.antt that are answered without an error.
use csi_driver_flexblock.Controller.Checks.{lookup-bind}
use csi_driver_flexblock.Store.{get_volume_by_name, find_volume_name}
use csi_driver_flexblock.Store.Range.{range-find_some, IsIn, range-find_none, RangesOver}
use csi_driver_flexblock.Controller.Frame.{Frame-check_source, Frame-populate, Frame-topologies}
use csi_driver_flexblock.Driver.Laws.{Created-create, Created}
use csi_driver_flexblock.Prelude.Text.{byte_size, skip_bytes}
use csi_driver_flexblock.Prelude.Int.{ℤ}
use csi_driver_flexblock.Spec.{requested, update}
use csi_driver_flexblock.Driver.Create.{create_flexblock_volume}
use csi_driver_flexblock.Go.Frame.{Frame-attempt, Frame-pure}
use csi_driver_flexblock.Spec.View.{view-insert, view}
use csi_driver_flexblock.Go.Settles.{
  Settles-after, Settles-wrap, Settles-pure, Settles-then, Settles-crash, Settles-if, Settles-bind,
  Settles-raise, Settles-maybe, Settles-require, Settles-first, Settles,
}
use csi_driver_flexblock.Controller.{ControllerServer, validate_request}
use csi_driver_flexblock.Go.{◌>>=◌, optional, pending, panic, err, Result, ok, Go}
use csi_driver_flexblock.Controller.Create.{
  reuse_volume, requested_access, populate_or_delete, fresh_volume, create_or_reuse, create_volume,
}
use csi_driver_flexblock.Identity.{Servers}
use csi_driver_flexblock.Csi.{CsiVolume, ContentSource, required_bytes, Access, CreateVolumeRequest}
use csi_driver_flexblock.Volume.{AccessType, Volume, Volumes}
use csi_driver_flexblock.Env.{History, Globals, Env}
use csi_driver_flexblock.Prelude.{
  not_inv, none, inl, ltb, ap, false, Option, inr, ◌∙◌, sym, subst, some, ◌≡◌, List, ℕ, String,
  refl,
}
use csi_driver_flexblock.Spec.Promised.{
  not_larger, Promised, Settles-expand, Settles-node_expand, Settles-delete_volume, Settles-publish,
}
use csi_driver_flexblock.Rpc.{
  publish_rpc, node_expand_rpc, expand_rpc, delete_volume_rpc, create_volume_rpc, Rpc, handle,
  handler, method_of,
}
use csi_driver_flexblock.Spec.Serves.{before_handler-volumes}
use csi_driver_flexblock.Server.Laws.{log_grpc-same}

module _ (env : Env) (ranges : RangesOver env) (old : Volumes) where
  module _ (req : CreateVolumeRequest) (caps : List Access)
      (asked : req.volume_capabilities ≡ some caps) where
    abbrev IsMade : Volumes → Type 0
    IsMade new = view new ≡ update (view old) (skip_bytes 4 req.name) (some (requested req caps))

    IsMade-Created :
        (r : Result Volume) (new : Volumes) (vol : Volume)
        → Created
            (skip_bytes 4 req.name)
            req.name
            (required_bytes req.capacity_range)
            (requested_access caps)
            false
            old
            r
            new
        → r ≡ ok vol
        → IsMade new
    IsMade-Created (ok made) new vol (kept, _, named, sized, typed, marked, _, _, _) h =
        ap view kept
        ∙ view-insert (skip_bytes 4 req.name) made old
        ∙ ap (λ i. update (view old) (skip_bytes 4 req.name) (some i))
            (λ i. record { name = named i; size = sized i; access = typed i; ephemeral = marked i })
    IsMade-Created (err e) new vol kept h = cc
    IsMade-Created panic new vol kept h = cc
    IsMade-Created pending new vol kept h = cc

    Settles-create :
        (fuel : ℕ)
        → Settles old IsMade (
            create_flexblock_volume env fuel
              (skip_bytes 4 req.name)
              req.name
              (required_bytes req.capacity_range)
              (requested_access caps)
              false)
    Settles-create fuel = record {
      at = λ s h vol r.
          IsMade-Created _ _ vol
            (subst
              (λ vs.
                Created (skip_bytes 4 req.name) req.name (required_bytes req.capacity_range)
                  (requested_access caps) false vs
                  (create_flexblock_volume env fuel (skip_bytes 4 req.name) req.name
                    (required_bytes req.capacity_range) (requested_access caps) false s).0
                  (create_flexblock_volume env fuel (skip_bytes 4 req.name) req.name
                    (required_bytes req.capacity_range) (requested_access caps) false s).1.volumes)
              h
              (Created-create env (skip_bytes 4 req.name) req.name
                (required_bytes req.capacity_range) (requested_access caps) false fuel s))
            r;
    }

    -- an error of the copying is the call's
    Settles-populate :
        (mid : Volumes)
        → IsMade mid
        → (capacity : ℤ) (access : AccessType) (source : Option ContentSource)
        → Settles mid IsMade (populate_or_delete env (skip_bytes 4 req.name) capacity access source)
    unfolding populate_or_delete
    Settles-populate mid made capacity access source =
        Settles-bind _ _ (Frame-attempt _ (Frame-populate env capacity _ access source)) λ error.
          Settles-maybe error _ _ (λ _. Settles-pure _ made)
            λ e _. Settles-after _ _ λ _ _. Settles-raise _

    Settles-fresh :
        (fuel : ℕ) (nodes : List String)
        → find_volume_name req.name old ≡ none
        → Settles old
            (λ new. Promised (create_volume_rpc req) old new)
            (fresh_volume env fuel req (requested_access caps) nodes)
    unfolding fresh_volume
    Settles-fresh fuel nodes absent =
        Settles-if (ltb (byte_size req.name) 4) _ _ (λ _. Settles-crash)
          λ _. Settles-then IsMade _ _ (Settles-wrap _ _ (Settles-create fuel)) λ mid made vol.
            Settles-first _ _ (λ _. Frame-pure _) (promised (Settles-populate mid made _ _ _))
      where
        promised :
            {m : Go (Unit {0})} {mid : Volumes}
            → Settles mid IsMade m
            → Settles mid (λ new. Promised (create_volume_rpc req) old new) m
        promised l = record {
          at = λ s h u r.
              inr (record { caps = caps; asked = asked; absent = absent; made = l.at s h u r });
        }

    Settles-reuse :
        (nodes : List String) (vol : Volume)
        → IsIn vol old × (vol.vol_name ≡ req.name)
        → Settles old (λ new. Promised (create_volume_rpc req) old new) (reuse_volume req nodes vol)
    unfolding reuse_volume
    Settles-reuse nodes vol (there, named) = Settles-require _ _ _ λ large.
        Settles-bind _ _ (Frame-check_source vol _) λ _. Settles-pure _ (
          inl (record {
            vol = vol;
            was_there = there;
            named = named;
            large = not_larger vol.vol_size (required_bytes req.capacity_range) (not_inv _ large);
            same = refl;
          }))

  -- the look for a volume of a name
  Settles-search :
      (Q : Volumes → Type 0) (name : String) (f : Option Volume → Go CsiVolume)
      → ((found : Option Volume) (h : History)
          → find_volume_name name (env.range_volumes h old) ≡ found
          → Settles old Q (f found))
      → Settles old Q (optional (get_volume_by_name env name) >>= f)
  Settles-search Q name f lf = record {
    at = λ s h v r.
        let e = lookup-bind env name f s in
        let known = ap (λ vs. find_volume_name name (env.range_volumes s.calls vs)) (sym h) in
        subst (λ p. Q p.1.volumes) (sym e)
          ((lf _ s.calls known).at s h v (ap (λ p. p.0) (sym e) ∙ r));
  }

  Settles-create_volume :
      (fuel : ℕ) (cs : ControllerServer) (req : CreateVolumeRequest)
      → Settles old
          (λ new. Promised (create_volume_rpc req) old new)
          (create_volume env fuel cs req)
  unfolding create_volume validate_request create_or_reuse
  Settles-create_volume fuel cs req = Settles-require _ _ _ λ _. Settles-require _ _ _ λ _.
      Settles-maybe _ _ _ (λ _. Settles-raise _)
        λ caps asked. Settles-require _ _ _ λ _. Settles-require _ _ _ λ _.
          Settles-bind _ _ (Frame-topologies env cs) λ nodes.
            Settles-search _ req.name _ λ existing h known.
              Settles-maybe existing _ _
                (λ nothing.
                  Settles-fresh req caps asked fuel nodes
                    (range-find_none env ranges h req.name old (known ∙ nothing)))
                λ vol found.
                  Settles-reuse req caps asked nodes vol
                    (range-find_some env ranges h req.name old vol (known ∙ found))

module _ (env : Env) (ranges : RangesOver env) (fuel : ℕ) (srv : Servers) (old : Volumes) where
  open srv use {ids, cs, ns}

  abbrev Achieved : Rpc → Volumes → Type 0
  Achieved r new = Promised r old new

  Settles-handler : (r : Rpc) → Settles old (Achieved r) (handler env fuel srv r)
  unfolding handler
  Settles-handler (create_volume_rpc req) =
      Settles-first _ _ (λ _. Frame-pure _) (Settles-create_volume env ranges old fuel cs req)
  Settles-handler (delete_volume_rpc id) = Settles-delete_volume env old cs id
  Settles-handler (expand_rpc id range) =
      Settles-first _ _ (λ _. Frame-pure _) (Settles-expand env old id range)
  Settles-handler (node_expand_rpc req) = Settles-node_expand env old req
  Settles-handler (publish_rpc req) = Settles-publish env old fuel ns req
  Settles-handler _ = record { at = λ s h u r. tt }

-- What the handler of a call makes of the map is what the call does, behind the interceptor.
pub Settles-handle :
    (env : Env) (fuel : ℕ) (srv : Servers) (r : Rpc) (s : Globals) (Q : Volumes → Type 0)
    → Settles s.volumes Q (handler env fuel srv r)
    → (handle env fuel srv r s).0 ≡ ok tt
    → Q (handle env fuel srv r s).1.volumes
unfolding handle
Settles-handle env fuel srv r s Q settles answered =
    let logged = log_grpc-same (handler env fuel srv r) (method_of r) s in
    subst Q (sym logged.1) (
      settles.at _ (before_handler-volumes env fuel srv (handler env fuel srv r) (method_of r) s) tt
        (sym logged.0 ∙ answered))

-- If a range over a map visits its entries and no others, then a call that is answered without an error, whatever the
-- environment answers, has done what it promises: a deleted volume is not there, an expanded one has at least that
-- size, a published one is there, and for a CreateVolume either a volume of that name was there, of at
-- least the size, and nothing is changed, or there was none, and one is there with the name, size and access
-- type that were asked for, and nothing else is changed.
pub Promised-handle :
    (env : Env) (fuel : ℕ) (srv : Servers) (r : Rpc) (s : Globals)
    → RangesOver env
    → (handle env fuel srv r s).0 ≡ ok tt
    → Promised r s.volumes (handle env fuel srv r s).1.volumes
Promised-handle env fuel srv r s ranges answered =
    Settles-handle env fuel srv r s (Promised r s.volumes)
      (Settles-handler env ranges fuel srv s.volumes r) answered
