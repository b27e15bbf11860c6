-- ===== src/Driver/Unanswered.antt =====
-- pkg/flexblock/flexblock.go, deleteFlexblockVolume: remote mode, while the management server does not answer.
use csi_driver_flexblock.Driver.Repeat.{delete_found}
use csi_driver_flexblock.Driver.Laws.{Deleted-delete_and_store, save-ok}
use csi_driver_flexblock.Controller.{
  create_delete_volume, has_rpc, ControllerServer, validate_request,
}
use csi_driver_flexblock.Store.{save_existing_vol, drop_volume}
use csi_driver_flexblock.Controller.Volumes.{delete_volume}
use csi_driver_flexblock.Prelude.Int.{pos, eq_ℤ}
use csi_driver_flexblock.Paths.{get_volume_path}
use csi_driver_flexblock.Remote.Cluster.{get_cluster_id, no_ids, Ids}
use csi_driver_flexblock.Http.{setting}
use csi_driver_flexblock.Go.Returns.{
  bind-ok, Returns-run, Returns-read_link, Returns-bind, returns_rules, Returns,
}
use csi_driver_flexblock.Sys.{run}
use csi_driver_flexblock.Driver.Disk.{find_device, storage_ips, checked}
use csi_driver_flexblock.Go.{
  modify, ◌>>◌, Go, wrap, internal, status, recode, os_error, raise, ok, require, ◌>>=◌, pure,
  maybe,
}
use csi_driver_flexblock.Volume.{
  erase, lookup, Volume, value_of, block_access, mount_access, other_access, is_mount, AccessType,
}
use csi_driver_flexblock.Remote.Silent.{
  get_cluster_id-silent, Returns-delete_vol, IsRemote, IsSilent,
}
use csi_driver_flexblock.Sys.{remove_all}
use csi_driver_flexblock.Driver.Delete.{
  delete_and_store, delete_local, unless_missing, tear_down, unmount_volume, forget_all,
  remove_holder, delete_remote, remove_mappers,
}
use csi_driver_flexblock.Env.{History, Globals, Env}
use csi_driver_flexblock.Prelude.{
  some, if◌then◌else◌, ◌∙◌, ap, sym, ◌||◌, ◌=ₛ◌, subst, none, false, true, ◌≡◌, List, String, ◌∷◌,
  [], refl,
}

-- The host does its part: the volume is unmounted, if it is mounted, and its directory can be removed.
pub record HostClears (env : Env) (access : AccessType) (path : String) : Type 0 where
  pub unmounts :
      is_mount access ≡ true
      → (h : History) → (env.run_answer h ("umount" ∷ path ∷ [])).failed ≡ false
  pub removes : (h : History) → unless_missing (env.remove_all_answer h path) ≡ none

module _ (env : Env) where
  Returns-remove_mappers : (dm : String) (fs : List String) → Returns (remove_mappers env dm fs)
  unfolding remove_mappers
  Returns-remove_mappers dm [] = search returns_rules
  Returns-remove_mappers dm (f ∷ fs) =
      Returns-bind _ _ (Returns-read_link env _)
        λ link. Returns-bind _ _ (search returns_rules) λ _. Returns-remove_mappers dm fs

  Returns-remove_holder : (hs : List String) → Returns (remove_holder env hs)
  unfolding remove_holder
  Returns-remove_holder [] = search returns_rules
  Returns-remove_holder (h ∷ hs) = search (returns_rules, Returns-remove_mappers)

  Returns-forget_all : (iqn : String) (ips : List String) → Returns (forget_all env iqn ips)
  unfolding forget_all
  Returns-forget_all iqn [] = search returns_rules
  Returns-forget_all iqn (ip ∷ ips) =
      Returns-bind _ _ (Returns-run env _) λ _. Returns-forget_all iqn ips

  -- None of the steps in remote mode can fail.
  Returns-delete_remote : (ids : Ids) (vol_id : String) → Returns (delete_remote env ids vol_id)
  unfolding delete_remote storage_ips find_device setting
  Returns-delete_remote ids vol_id =
      search (returns_rules, Returns-remove_holder, Returns-forget_all, Returns-delete_vol) depth 12

  unmount-ok :
      (access : AccessType) (path : String) (s : Globals)
      → HostClears env access path
      → ((unmount_volume env access path s).0 ≡ ok tt)
        × ((unmount_volume env access path s).1.confinfo ≡ s.confinfo)
  unfolding unmount_volume checked run require pure ◌>>=◌
  unmount-ok mount_access path s clears = rw (clears.unmounts refl s.calls) (refl, refl)
  unmount-ok block_access path s clears = (refl, refl)
  unmount-ok (other_access n) path s clears = (refl, refl)

  Returns-removed :
      (access : AccessType) (path : String)
      → HostClears env access path
      → Returns {A = Unit {0}} (do
        removed ← remove_all env path
        maybe (unless_missing removed) (pure tt) λ e. raise (os_error e))
  unfolding remove_all maybe pure ◌>>=◌
  Returns-removed access path clears = record { at = λ s. (tt, rw (clears.removes s.calls) refl) }

  -- what tear_down does behind getClusterID, and behind the unmounting
  behind_ids : String → Ids → Go (Unit {0})
  behind_ids id ids = do
    (if eq_ℤ ids.0 (pos 0) then delete_local env id else delete_remote env ids id)
    removed ← remove_all env (get_volume_path id)
    maybe (unless_missing removed) (pure tt) λ e. raise (os_error e)

  behind_unmount : String → Go (Unit {0})
  behind_unmount id = wrap internal (get_cluster_id env) >>= behind_ids id

  Returns-behind_ids :
      (id : String) (access : AccessType)
      → HostClears env access (get_volume_path id)
      → Returns (behind_ids id no_ids)
  unfolding behind_ids
  Returns-behind_ids id access clears =
      Returns-bind _ _ (Returns-delete_remote no_ids id)
        λ _. Returns-removed access (get_volume_path id) clears

  module _ (silent : IsSilent env) where
    tear_down-silent :
        (id : String) (access : AccessType) (s : Globals)
        → IsRemote s
        → HostClears env access (get_volume_path id)
        → (tear_down env id access s).0 ≡ ok tt
    unfolding tear_down behind_unmount behind_ids wrap
    tear_down-silent id access s remote clears =
        let (unmounted, kept) = unmount-ok access (get_volume_path id) s clears in
        let s' = (unmount_volume env access (get_volume_path id) s).1 in
        let still =
          subst (λ c. ((value_of "csimod" c =ₛ "") || (value_of "csimod" c =ₛ "local")) ≡ false)
            (sym kept) remote in
        let ids = ap (recode (λ _. status internal)) (get_cluster_id-silent env silent s' still) in
        ap (λ p. p.0)
          (bind-ok (unmount_volume env access (get_volume_path id)) (λ _. behind_unmount id) s tt
              unmounted
            ∙ bind-ok (wrap internal (get_cluster_id env)) (behind_ids id) s' no_ids ids)
        ∙ ((Returns-behind_ids id access clears).at _).1

    delete_and_store-silent :
        (id : String) (access : AccessType) (s : Globals)
        → IsRemote s
        → HostClears env access (get_volume_path id)
        → (delete_and_store env id access s).0 ≡ ok tt
    unfolding delete_and_store drop_volume modify ◌>>=◌
    delete_and_store-silent id access s remote clears =
        ap (λ p. p.0)
          (bind-ok (tear_down env id access) (λ _. drop_volume id >> save_existing_vol env) s tt
            (tear_down-silent id access s remote clears))
        ∙ save-ok env _

    -- In remote mode, while the management server answers nothing, DeleteVolume of a volume that the
    -- host can unmount, and whose directory it can remove, succeeds, for a controller that announces
    -- the capability, and takes exactly this volume out of the map.
    pub delete_volume-unanswered :
        (cs : ControllerServer) (id : String) (vol : Volume) (s : Globals)
        → has_rpc create_delete_volume cs.caps ≡ true
        → (id =ₛ "") ≡ false
        → lookup id s.volumes ≡ some vol
        → IsRemote s
        → HostClears env vol.vol_access_type (get_volume_path id)
        → ((delete_volume env cs id s).0 ≡ ok tt)
          × ((delete_volume env cs id s).1.volumes ≡ erase id s.volumes)
    unfolding delete_volume validate_request require wrap pure ◌>>=◌
    delete_volume-unanswered cs id vol s able named found remote clears =
        let gone = delete_and_store-silent id vol.vol_access_type s remote clears in
        let left = rw gone at (Deleted-delete_and_store env id vol.vol_access_type s) in
        rw named (
          rw able
            (rw (delete_found env id s vol found) (ap (recode (λ _. status internal)) gone, left)))
