-- ===== src/Driver/Commands/WholeDelete.antt =====
-- pkg/flexblock/flexblock.go: the commands of deleteFlexblockVolume in local mode.
use csi_driver_flexblock.Driver.Repeat.{delete_found}
use csi_driver_flexblock.Prelude.Int.{pos, eq_ℤ}
use csi_driver_flexblock.Remote.Cluster.{get_cluster_id}
use csi_driver_flexblock.Go.Inversion.{bind_inv}
use csi_driver_flexblock.Store.{save_existing_vol, drop_volume}
use csi_driver_flexblock.Driver.Commands.{require-state, show_command}
use csi_driver_flexblock.Sys.{remove_all}
use csi_driver_flexblock.Sys.{run}
use csi_driver_flexblock.Driver.Commands.Whole.{get_cluster_id-local, IsLocal}
use csi_driver_flexblock.Driver.Commands.Delete.{
  deleted_locally, erase_command, untarget_commands, forget_command, logout_command, DeletedLocally,
}
use csi_driver_flexblock.Paths.{get_volume_path}
use csi_driver_flexblock.Driver.Disk.{checked}
use csi_driver_flexblock.Driver.Commands.Issues.{
  noted-append, commands-ran, Issues-save, Issues-raise, Issues-maybe, Issues-remove_all,
  Issues-bind, noted, Issues-pure, commands, Issues-checked, Issues,
}
use csi_driver_flexblock.Go.{
  Result, modify, internal, wrap, ok, os_error, raise, maybe, pure, ◌>>◌, ◌>>=◌, Go,
}
use csi_driver_flexblock.Driver.Delete.{
  delete_flexblock_volume, delete_remote, delete_and_store, unless_missing, delete_local,
  unmount_volume, tear_down,
}
use csi_driver_flexblock.Env.{Globals, Env}
use csi_driver_flexblock.Volume.{
  lookup, Volume, value_of, block_access, other_access, mount_access, AccessType,
}
use csi_driver_flexblock.Prelude.{
  ◌∙◌, sym, true, some, ◌||◌, ◌=ₛ◌, if◌then◌else◌, subst, ap, ◌≡◌, ◌++◌, ℕ, List, String, ◌∷◌, [],
  refl,
}

abbrev pub unmount_commands : AccessType → String → List (List String)
unmount_commands mount_access path = ("umount" ∷ path ∷ []) ∷ []
unmount_commands _ path = []

-- all commands of a deletion, in their order
abbrev pub delete_commands : AccessType → String → ℕ → List (List String)
delete_commands access id tid =
    unmount_commands access (get_volume_path id)
    ++ (logout_command id
        ∷ forget_command id
        ∷ show_command
        ∷ (untarget_commands tid ++ (erase_command id ∷ [])))

module _ (env : Env) (id : String) (access : AccessType) where
  -- the state behind the unmounting
  abbrev pub unmounted : Globals → Globals
  unmounted s = (unmount_volume env access (get_volume_path id) s).1

  -- What a deletion in local mode has read and run in all.
  pub record WholeDeletion (s t : Globals) : Type 0 where
    pub behind : Globals
    pub deleted : DeletedLocally env id (unmounted s) behind
    pub order : commands t.calls ≡ noted (delete_commands access id deleted.tid) (commands s.calls)

  unmount-confinfo :
      (a : AccessType) (path : String) (s : Globals)
      → (unmount_volume env a path s).1.confinfo ≡ s.confinfo
  unfolding unmount_volume checked run pure ◌>>=◌
  unmount-confinfo mount_access path s = ap (λ (t : Globals). t.confinfo) (require-state _ _ _)
  unmount-confinfo block_access path s = refl
  unmount-confinfo (other_access n) path s = refl

  Issues-unmount :
      (a : AccessType) (path : String)
      → Issues (unmount_commands a path) (unmount_volume env a path)
  unfolding unmount_volume
  Issues-unmount mount_access path = Issues-checked env _
  Issues-unmount block_access path = Issues-pure tt
  Issues-unmount (other_access n) path = Issues-pure tt

  -- what tear_down does behind the unmounting
  behind_unmount : Go (Unit {0})
  behind_unmount = do
    ids ← wrap internal (get_cluster_id env)
    (if eq_ℤ ids.0 (pos 0) then delete_local env id else delete_remote env ids id)
    removed ← remove_all env (get_volume_path id)
    maybe (unless_missing removed) (pure tt) λ e. raise (os_error e)

  clear_directory : Unit {0} → Go (Unit {0})
  clear_directory u = do
    removed ← remove_all env (get_volume_path id)
    maybe (unless_missing removed) (pure tt) λ e. raise (os_error e)

  Issues-clear : (u : Unit {0}) → Issues [] (clear_directory u)
  unfolding clear_directory
  Issues-clear u =
      Issues-bind [] [] _ _ (Issues-remove_all env _)
        λ removed. Issues-maybe [] _ _ _ (Issues-pure tt) λ e. Issues-raise _

  behind_unmount-local :
      (s : Globals) → IsLocal s → behind_unmount s ≡ (delete_local env id >>= clear_directory) s
  unfolding behind_unmount clear_directory ◌>>=◌
  behind_unmount-local s here = rw (get_cluster_id-local env s here) refl

  Whole-tear_down :
      (s : Globals)
      → IsLocal s
      → (tear_down env id access s).0 ≡ ok tt
      → WholeDeletion s (tear_down env id access s).1
  unfolding tear_down behind_unmount
  Whole-tear_down s here h =
      let t = (tear_down env id access s).1 in
      let path = get_volume_path id in
      let a = bind_inv (unmount_volume env access path) (λ _. behind_unmount) s (λ i. (h i, t)) in
      let still =
        subst (λ c. ((value_of "csimod" c =ₛ "") || (value_of "csimod" c =ₛ "local")) ≡ true)
          (sym (unmount-confinfo access path s)) here in
      let b =
        bind_inv (delete_local env id) clear_directory (unmounted s)
          (sym (behind_unmount-local (unmounted s) still) ∙ a.2) in
      let s' = (delete_local env id (unmounted s)).1 in
      let d = deleted_locally env id (unmounted s) s' b.0 (λ i. (b.1 i, s')) in
      let back =
        logout_command id
        ∷ forget_command id
        ∷ show_command
        ∷ (untarget_commands d.tid ++ (erase_command id ∷ [])) in
      record {
        behind = s';
        deleted = d;
        order =
            ap (λ (u : Result (Unit {0}) × Globals). commands u.1.calls) (sym b.2)
            ∙ (Issues-clear b.0).at s' tt (ap (λ p. p.0) b.2)
            ∙ ap (λ (u : Globals). commands u.calls) d.state
            ∙ commands-ran back (unmounted s)
            ∙ ap (noted back) ((Issues-unmount access path).at s a.0 a.1)
            ∙ noted-append (unmount_commands access path) back (commands s.calls);
      }

-- Where deleteFlexblockVolume of a volume that is in the map succeeds in local mode, the targets that were shown behind
-- the log-out hold the volume's name, the number is that of the target which the regular expression found, and
-- just these commands were run, in this order: for a mount volume the one that unmounts it, the two that log
-- out of the target, the one that shows the targets, the two that delete the one with that number, and the
-- one that deletes the device.
pub deleted_in_local_mode :
    (env : Env) (id : String) (vol : Volume) (s : Globals)
    → lookup id s.volumes ≡ some vol
    → IsLocal s
    → (delete_flexblock_volume env id s).0 ≡ ok tt
    → WholeDeletion env id vol.vol_access_type s (delete_flexblock_volume env id s).1
unfolding delete_and_store drop_volume modify
deleted_in_local_mode env id vol s found here h =
    let access = vol.vol_access_type in
    let same = delete_found env id s vol found in
    let t = (delete_flexblock_volume env id s).1 in
    let a =
      bind_inv (tear_down env id access) (λ _. drop_volume id >> save_existing_vol env) s
        (sym same ∙ (λ i. (h i, t))) in
    let w = Whole-tear_down env id access s here a.1 in
    let s' = (tear_down env id access s).1 in
    let kept =
      Issues-bind [] [] (drop_volume id) (λ _. save_existing_vol env)
        (record { at = λ s u h. refl }) λ _. Issues-save env in
    record {
      behind = w.behind;
      deleted = w.deleted;
      order =
          ap (λ (u : Result (Unit {0}) × Globals). commands u.1.calls) (sym a.2)
          ∙ kept.at s' tt (ap (λ p. p.0) a.2)
          ∙ w.order;
    }
