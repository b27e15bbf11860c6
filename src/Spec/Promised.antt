-- ===== src/Spec/Promised.antt =====
-- What a call has achieved where it is answered without an error.
use csi_driver_flexblock.Store.{find_volume_name}
use csi_driver_flexblock.Store.Range.{IsIn}
use csi_driver_flexblock.Prelude.Text.{skip_bytes, skip_bytes}
use csi_driver_flexblock.Node.Frame.{Frame-publish_volume}
use csi_driver_flexblock.Sys.Frame.{Frame-stat}
use csi_driver_flexblock.Node.{NodeServer}
use csi_driver_flexblock.Csi.{
  required_bytes, CreateVolumeRequest, Access, NodePublishRequest, NodeExpandRequest,
}
use csi_driver_flexblock.Controller.{ControllerServer, validate_request}
use csi_driver_flexblock.Controller.Volumes.{controller_expand_volume, delete_volume, grow}
use csi_driver_flexblock.Node.Expand.{expand_checked, node_grow, node_expand_volume}
use csi_driver_flexblock.Go.Frame.{Frame-pure}
use csi_driver_flexblock.Go.Settles.{
  Settles-after, Settles-get_volume, Settles-raise, Settles-first, Settles-wrap, Settles-require,
  Settles-if, Settles-pure, Settles-lookup, Settles-maybe, Settles-bind, Settles,
}
use csi_driver_flexblock.Driver.Laws.{
  Deleted-delete_and_store, Updated-resize_and_store, Updated, Deleted,
}
use csi_driver_flexblock.Go.{maybe, pending, panic, err, ok, Result}
use csi_driver_flexblock.Driver.Delete.{delete_and_store, delete_flexblock_volume}
use csi_driver_flexblock.Driver.Update.{resize_and_store, update_flexblock_volume}
use csi_driver_flexblock.Volume.{
  insert, lookup-erase, lookup-insert, erase, Volume, lookup, Volumes,
}
use csi_driver_flexblock.Spec.{requested, update, Info, View}
use csi_driver_flexblock.Env.{Env}
use csi_driver_flexblock.Prelude.Int.{ltb_ℤ, ◌≤ℤ◌, ℤ}
use csi_driver_flexblock.Spec.View.{view-found, info, view}
use csi_driver_flexblock.Prelude.{
  List, ◌⊎◌, sym, ℕ, eq_refl, subst, ◌∙◌, ap, false, none, ◌≡◌, arith, some, Option, String, refl,
}
use csi_driver_flexblock.Rpc.{
  create_volume_rpc, publish_rpc, node_expand_rpc, expand_rpc, delete_volume_rpc, Rpc,
}
use csi_driver_flexblock.Node.Publish.{node_publish_volume, publish_checked}

-- A volume of at least that size is there.
abbrev HasSize : String → Option ℤ → View → Type 0
HasSize id none w = ⊥
HasSize id (some capacity) w = (i : Info) × (w id ≡ some i) × (capacity ≤ℤ i.size)

-- A volume of the request's name was there, of at least the requested size, and the volumes are left alone.
pub record Reused (req : CreateVolumeRequest) (old new : Volumes) : Type 0 where
  pub vol : Volume
  pub was_there : IsIn vol old
  pub named : vol.vol_name ≡ req.name
  pub large : required_bytes req.capacity_range ≤ℤ vol.vol_size
  pub same : view new ≡ view old

-- No volume of the request's name was there, and one is made as the request asks.
pub record NewlyMade (req : CreateVolumeRequest) (old new : Volumes) : Type 0 where
  pub caps : List Access
  pub asked : req.volume_capabilities ≡ some caps
  pub absent : find_volume_name req.name old ≡ none
  pub made : view new ≡ update (view old) (skip_bytes 4 req.name) (some (requested req caps))

-- What a call promises of the volumes, from those before it.
abbrev pub Promised : Rpc → Volumes → Volumes → Type 0
Promised (create_volume_rpc req) old new = Reused req old new ⊎ NewlyMade req old new
Promised (delete_volume_rpc id) old new = view new id ≡ none
Promised (expand_rpc id range) old new = HasSize id range (view new)
Promised (node_expand_rpc req) old new = HasSize req.volume_id req.capacity_range (view new)
Promised (publish_rpc req) old new = (i : Info) × (view new req.volume_id ≡ some i)
Promised _ old new = Unit

pub not_larger : (a b : ℤ) → ltb_ℤ a b ≡ false → b ≤ℤ a
not_larger a b h = ground arith

same_size : (a : ℤ) → a ≤ℤ a
same_size a = ground arith

view_missing : (id : String) (vs : Volumes) → lookup id vs ≡ none → view vs id ≡ none
unfolding view
view_missing id vs absent = rw (absent, view)

large_already :
    (id : String) (vol : Volume) (capacity : ℤ) (vs : Volumes)
    → lookup id vs ≡ some vol
    → ltb_ℤ vol.vol_size capacity ≡ false
    → HasSize id (some capacity) (view vs)
large_already id vol capacity vs found enough =
    (info vol, view-found id vs vol found, not_larger vol.vol_size capacity enough)

not_both : (o : Option Volume) (w : Volume) → o ≡ some w → o ≡ none → ⊥
not_both o w a b = cc

module _ (env : Env) (old : Volumes) where
  after_Deleted :
      (id : String) (r : Result (Unit {0})) (new : Volumes) (u : Unit {0})
      → Deleted id old r new
      → r ≡ ok u
      → view new id ≡ none
  after_Deleted id (ok u) new v kept h =
      ap (λ vs. view vs id) kept
      ∙ view_missing id (erase id old) (lookup-erase id id old ∙ rw (eq_refl id) refl)
  after_Deleted id (err e) new v kept h = cc
  after_Deleted id panic new v kept h = cc
  after_Deleted id pending new v kept h = cc

  Settles-delete :
      (id : String) → Settles old (λ new. view new id ≡ none) (delete_flexblock_volume env id)
  unfolding delete_flexblock_volume
  Settles-delete id = Settles-lookup id _ λ found there.
      Settles-maybe found _ _ (λ absent. Settles-pure _ (view_missing id old (there ∙ absent)))
        λ vol _. record {
          at = λ s h u r.
              after_Deleted id _ _ u
                (subst
                  (λ vs.
                    Deleted id vs (delete_and_store env id vol.vol_access_type s).0
                      (delete_and_store env id vol.vol_access_type s).1.volumes)
                  h (Deleted-delete_and_store env id vol.vol_access_type s))
                r;
        }

  -- the size behind an update
  after_Updated :
      (id : String) (vol : Volume) (capacity : ℤ) (r : Result (Unit {0})) (new : Volumes)
      (u : Unit {0})
      → Updated id (record vol { vol_size = capacity }) old r new
      → r ≡ ok u
      → HasSize id (some capacity) (view new)
  after_Updated id vol capacity (ok u) new v kept h = (
    info (record vol { vol_size = capacity }),
    ap (λ vs. view vs id) kept
        ∙ view-found id (insert id (record vol { vol_size = capacity }) old)
            (record vol { vol_size = capacity }) (lookup-insert id id _ old ∙ rw (eq_refl id) refl),
    same_size capacity,
  )
  after_Updated id vol capacity (err e) new v kept h = cc
  after_Updated id vol capacity panic new v kept h = cc
  after_Updated id vol capacity pending new v kept h = cc

  Settles-update :
      (id : String) (vol w : Volume) (capacity : ℤ)
      → lookup id old ≡ some w
      → Settles old
          (λ new. HasSize id (some capacity) (view new))
          (update_flexblock_volume env id (record vol { vol_size = capacity }))
  unfolding update_flexblock_volume
  Settles-update id vol w capacity known = Settles-lookup id _ λ found there.
      Settles-maybe found _ _ (λ absent. absurd (not_both _ w known (there ∙ absent)))
        λ w _. record {
          at = λ s h u r.
              after_Updated id vol capacity _ _ u
                (subst
                  (λ vs.
                    Updated id (record vol { vol_size = capacity }) vs
                      (resize_and_store env id (record vol { vol_size = capacity })
                        w.vol_access_type s).0
                      (resize_and_store env id (record vol { vol_size = capacity })
                        w.vol_access_type s).1.volumes)
                  h
                  (Updated-resize_and_store env id (record vol { vol_size = capacity })
                    w.vol_access_type s))
                r;
        }

  Settles-grow :
      (id : String) (vol : Volume) (capacity : ℤ)
      → lookup id old ≡ some vol
      → Settles old (λ new. HasSize id (some capacity) (view new)) (grow env id vol capacity)
  unfolding grow
  Settles-grow id vol capacity found =
      Settles-if (ltb_ℤ vol.vol_size capacity) _ _
        (λ _.
          Settles-first _ _ (λ _. Frame-pure _)
            (Settles-wrap _ _ (Settles-update id vol vol capacity found)))
        λ enough. Settles-pure _ (large_already id vol capacity old found enough)

  Settles-node_grow :
      (id : String) (vol : Volume) (capacity : ℤ)
      → lookup id old ≡ some vol
      → Settles old (λ new. HasSize id (some capacity) (view new)) (node_grow env id vol capacity)
  unfolding node_grow
  Settles-node_grow id vol capacity found =
      Settles-if (ltb_ℤ vol.vol_size capacity) _ _
        (λ _. Settles-wrap _ _ (Settles-update id vol vol capacity found))
        λ enough. Settles-pure _ (large_already id vol capacity old found enough)

  pub Settles-expand :
      (id : String) (range : Option ℤ)
      → Settles old (λ new. HasSize id range (view new)) (controller_expand_volume env id range)
  unfolding controller_expand_volume maybe
  Settles-expand id none = Settles-require _ _ _ λ _. Settles-raise _
  Settles-expand id (some capacity) = Settles-require _ _ _ λ _.
      Settles-require _ _ _
        λ _. Settles-get_volume _ _ _ λ vol found. Settles-grow id vol capacity found

  pub Settles-node_expand :
      (req : NodeExpandRequest)
      → Settles old
          (λ new. HasSize req.volume_id req.capacity_range (view new))
          (node_expand_volume env req)
  unfolding node_expand_volume expand_checked
  Settles-node_expand req = Settles-require _ _ _ λ _. Settles-get_volume _ _ _ λ vol found.
      Settles-require _ _ _ λ _.
        Settles-maybe _ _ _ (λ _. Settles-raise _)
          λ capacity asked. Settles-require _ _ _ λ _. Settles-bind _ _ (Frame-stat env _) λ mode.
            Settles-maybe mode _ _ (λ _. Settles-raise _)
              λ _ _. Settles-require _ _ _ λ _.
                subst
                  (λ r.
                    Settles old (λ new. HasSize req.volume_id r (view new))
                      (node_grow env req.volume_id vol capacity))
                  (sym asked) (Settles-node_grow req.volume_id vol capacity found)

  pub Settles-delete_volume :
      (cs : ControllerServer) (id : String)
      → Settles old (λ new. view new id ≡ none) (delete_volume env cs id)
  unfolding delete_volume validate_request
  Settles-delete_volume cs id =
      Settles-require _ _ _ λ _. Settles-require _ _ _ λ _. Settles-wrap _ _ (Settles-delete id)

  pub Settles-publish :
      (fuel : ℕ) (ns : NodeServer) (req : NodePublishRequest)
      → Settles old
          (λ new. (i : Info) × (view new req.volume_id ≡ some i))
          (node_publish_volume env fuel ns req)
  unfolding node_publish_volume publish_checked
  Settles-publish fuel ns req =
      Settles-maybe _ _ _ (λ _. Settles-raise _)
        λ access _. Settles-require _ _ _ λ _. Settles-require _ _ _ λ _. Settles-after _ _ λ mid _.
          Settles-get_volume _ _ _ λ vol found. record {
            at = λ s h u r.
                let kept = (Frame-publish_volume env req access vol).volumes s ∙ h in
                (
                  info vol,
                  ap (λ vs. view vs req.volume_id) kept ∙ view-found req.volume_id mid vol found,
                );
          }
