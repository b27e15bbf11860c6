-- ===== src/Driver/Unresized.antt =====
-- pkg/flexblock/flexblock.go, updateFlexblockVolume: remote mode, while the management server does not answer.
use csi_driver_flexblock.Controller.Expand.{update_found}
use csi_driver_flexblock.Controller.Volumes.{grow, controller_expand_volume}
use csi_driver_flexblock.Driver.Laws.{Updated-resize_and_store, save-ok}
use csi_driver_flexblock.Driver.Create.{has_no_pool}
use csi_driver_flexblock.Store.{get_volume_by_id, save_existing_vol, put_volume}
use csi_driver_flexblock.Remote.Cluster.{get_cluster_id, no_ids, Ids}
use csi_driver_flexblock.Go.{
  require, maybe, status, recode, ◌>>◌, internal, ok, ◌>>=◌, Go, modify, pure, wrap,
}
use csi_driver_flexblock.Http.{setting, endpoint}
use csi_driver_flexblock.Go.Returns.{
  Returns-then, Returns-send, bind-ok, Returns-require, Returns-gets, Returns-wrap, returns_rules,
  Returns-bind, Returns-checked, Returns-pure, Returns,
}
use csi_driver_flexblock.Prelude.Int.{ltb_ℤ, pos, eq_ℤ, ℤ}
use csi_driver_flexblock.Sys.{read_link, read_dir}
use csi_driver_flexblock.Remote.Silent.{
  get_cluster_id-silent, Returns-get_andes_vol, IsRemote, IsSilent,
}
use csi_driver_flexblock.Remote.Volumes.{update_vol}
use csi_driver_flexblock.Driver.Disk.{remote_iqn, Device, storage_ips, find_device}
use csi_driver_flexblock.Driver.Update.{
  resize_local, resize_and_store, resize, resize_remote, resize_file_system, reload_multipath,
}
use csi_driver_flexblock.Volume.{
  insert, max_storage_capacity, lookup, block_access, mount_access, other_access, is_mount, Volume,
  AccessType,
}
use csi_driver_flexblock.Env.{Globals, History, Env}
use csi_driver_flexblock.Prelude.{
  ◌=ₛ◌, some, ◌∙◌, not, if◌then◌else◌, false, ap, sym, List, true, ◌≡◌, String, ◌∷◌, [], refl,
}

-- The host does its part: its requests can be written, a multipath device holds the volume's device, and the device
-- and the file system on it are looked at again.
pub record HostResizes (env : Env) (id : String) (access : AccessType) : Type 0 where
  pub valid : (url : String) → env.url_is_valid url ≡ true
  pub held :
      (h : History) (path : String) (ips : List String)
      → has_no_pool (env.read_dir_answer h path) ips ≡ false
  pub rescans :
      (h : History)
      → (env.run_answer h ("iscsiadm" ∷ "-m" ∷ "node" ∷ "-T" ∷ remote_iqn id ∷ "-R" ∷ [])).failed
        ≡ false
  pub grows :
      is_mount access ≡ true
      → (h : History) (disk : String) → (env.run_answer h ("resize2fs" ∷ disk ∷ [])).failed ≡ false

module _ (env : Env) (id : String) (access : AccessType) (works : HostResizes env id access) where
  Returns-update_vol : (cluster pool : ℤ) (size : ℤ) → Returns (update_vol env cluster pool id size)
  unfolding update_vol endpoint setting
  Returns-update_vol cluster pool size =
      Returns-bind _ _ (Returns-get_andes_vol env cluster pool id) λ vol.
        Returns-bind _ _ (Returns-gets _) λ url. Returns-bind _ _ (Returns-gets _) λ token.
          Returns-then _ _ _ (works.valid _)
            (Returns-bind _ _ (Returns-send env _) λ _. Returns-pure vol)

  Returns-found_device {ℓ} :
      {B : Type ℓ} (iqn old : String) (ips : List String) (k : Device → Go B)
      → ((path dir : String) (h : History) → Returns (k (path, env.read_dir_answer h dir)))
      → Returns (find_device env iqn old ips >>= k)
  unfolding find_device read_dir read_link pure ◌>>=◌
  Returns-found_device iqn old ips k rk = record { at = λ s. (rk _ _ _).at _ }

  Returns-resize_file_system :
      (a : AccessType) (disk : String) → a ≡ access → Returns (resize_file_system env a disk)
  unfolding resize_file_system
  Returns-resize_file_system mount_access disk same =
      Returns-checked env _ λ h. works.grows (sym (ap is_mount same)) h disk
  Returns-resize_file_system block_access disk same = Returns-pure tt
  Returns-resize_file_system (other_access n) disk same = Returns-pure tt

  Returns-reload_multipath : (device : Device) → Returns (reload_multipath env device)
  unfolding reload_multipath
  Returns-reload_multipath (path, []) = Returns-pure tt
  Returns-reload_multipath (path, h ∷ hs) = search returns_rules

  Returns-resize_remote : (ids : Ids) (capacity : ℤ) → Returns (resize_remote env ids id capacity)
  unfolding resize_remote storage_ips setting
  Returns-resize_remote ids capacity =
      Returns-bind _ _ (Returns-wrap _ _ (Returns-update_vol _ _ _)) λ vol.
        Returns-bind _ _ (Returns-checked env _ works.rescans) λ _.
          Returns-bind _ _ (search returns_rules) λ ips.
            Returns-found_device _ _ ips _ λ path dir h.
              Returns-bind _ _ (Returns-require _ _ (ap not (works.held h dir ips)))
                λ _. Returns-bind _ _ (Returns-reload_multipath _) λ _. Returns-pure _

  module _ (silent : IsSilent env) where
    -- what `resize` does behind getClusterID
    resize_with : ℤ → Ids → Go (Unit {0})
    resize_with capacity ids = do
      disk ←
          (if eq_ℤ ids.0 (pos 0)
            then resize_local env id capacity
            else resize_remote env ids id capacity)
      resize_file_system env access disk

    Returns-resize_with : (capacity : ℤ) → Returns (resize_with capacity no_ids)
    unfolding resize_with
    Returns-resize_with capacity =
        Returns-bind _ _ (Returns-resize_remote no_ids capacity)
          λ disk. Returns-resize_file_system access disk refl

    resize-silent :
        (capacity : ℤ) (s : Globals) → IsRemote s → (resize env id access capacity s).0 ≡ ok tt
    unfolding resize resize_with wrap
    resize-silent capacity s remote =
        ap (λ p. p.0)
          (bind-ok (wrap internal (get_cluster_id env)) (resize_with capacity) s no_ids
            (ap (recode (λ _. status internal)) (get_cluster_id-silent env silent s remote)))
        ∙ ((Returns-resize_with capacity).at _).1

    resize_and_store-silent :
        (vol : Volume) (s : Globals) → IsRemote s → (resize_and_store env id vol access s).0 ≡ ok tt
    unfolding resize_and_store put_volume modify ◌>>=◌
    resize_and_store-silent vol s remote =
        ap (λ p. p.0)
          (bind-ok (resize env id access vol.vol_size)
            (λ _. put_volume id vol >> save_existing_vol env) s tt
            (resize-silent vol.vol_size s remote))
        ∙ save-ok env _

-- In remote mode, while the management server answers nothing, a ControllerExpandVolume to a larger size that the
-- limit allows succeeds, where the host does its part, and replies the new size, which the map then has for the
-- volume, with nothing else changed.
pub expand-unanswered :
    (env : Env) (id : String) (vol : Volume) (capacity : ℤ) (s : Globals)
    → IsSilent env
    → HostResizes env id vol.vol_access_type
    → IsRemote s
    → lookup id s.volumes ≡ some vol
    → (id =ₛ "") ≡ false
    → ltb_ℤ vol.vol_size capacity ≡ true
    → ltb_ℤ capacity max_storage_capacity ≡ true
    → ((controller_expand_volume env id (some capacity) s).0
        ≡ ok (record { capacity_bytes = capacity; node_expansion_required = true }))
      × ((controller_expand_volume env id (some capacity) s).1.volumes
          ≡ insert id (record vol { vol_size = capacity }) s.volumes)
unfolding controller_expand_volume grow get_volume_by_id maybe require wrap pure ◌>>=◌
expand-unanswered env id vol capacity s silent works remote found named larger below =
    let new = record vol { vol_size = capacity } in
    let done = resize_and_store-silent env id vol.vol_access_type works silent new s remote in
    let left = rw done at (Updated-resize_and_store env id new vol.vol_access_type s) in
    rw named (
      rw below
        (rw found (rw larger (rw (update_found env id vol new s found) (rw done (refl, left))))))
