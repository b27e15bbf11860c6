-- ===== src/Driver/Commands/Whole.antt =====
-- pkg/flexblock/flexblock.go: the commands of createFlexblockVolume and deleteFlexblockVolume in local mode.
use csi_driver_flexblock.Go.Inversion.{bind_inv}
use csi_driver_flexblock.Store.{save_existing_vol, put_volume}
use csi_driver_flexblock.Driver.Disk.{local_disk}
use csi_driver_flexblock.Prelude.Decimal.{show_ℤ}
use csi_driver_flexblock.Paths.{get_volume_path}
use csi_driver_flexblock.Http.{setting}
use csi_driver_flexblock.Remote.Cluster.{get_cluster_id}
use csi_driver_flexblock.Driver.Commands.Issues.{
  noted-append, commands-ran, Issues-save, Issues-checked, Issues-sleep, Issues-raise, Issues-pure,
  Issues-maybe, Issues-mkdir_all, noted, Issues-bind, commands, Issues,
}
use csi_driver_flexblock.Driver.Commands.{
  made_locally, target_commands, show_command, create_command, MadeLocally,
}
use csi_driver_flexblock.Go.{Result, ◌>>◌, modify, internal, pure, gets, ok, ◌>>=◌, Go, wrap}
use csi_driver_flexblock.Prelude.Int.{pos, ℤ}
use csi_driver_flexblock.Driver.Create.{
  new_volume, create_flexblock_volume, create_local, prepare, format,
}
use csi_driver_flexblock.Volume.{
  Volume, block_access, other_access, mount_access, value_of, AccessType,
}
use csi_driver_flexblock.Env.{Globals, Env}
use csi_driver_flexblock.Prelude.{
  ◌∙◌, sym, ap, Bool, ◌++◌, true, ℕ, ◌||◌, ◌≡◌, ◌=ₛ◌, List, String, ◌∷◌, [], refl,
}

-- csimod is not set, or is local.
abbrev pub IsLocal : Globals → Type 0
IsLocal s =
    ((value_of "csimod" s.confinfo =ₛ "") || (value_of "csimod" s.confinfo =ₛ "local")) ≡ true

-- the commands that make a file system on a mount volume, and mount it
abbrev pub format_commands : AccessType → String → String → List (List String)
format_commands mount_access disk path =
    ("mkfs.ext4" ∷ disk ∷ "-F" ∷ []) ∷ ("mount" ∷ "-t" ∷ "ext4" ∷ disk ∷ path ∷ []) ∷ []
format_commands _ disk path = []

module _ (env : Env) where
  pub get_cluster_id-local :
      (s : Globals)
      → IsLocal s
      → wrap internal (get_cluster_id env) s ≡ (ok (pos 0, pos 0, pos 0), s)
  unfolding wrap get_cluster_id setting gets pure ◌>>=◌
  get_cluster_id-local s here = rw here refl

  Issues-format :
      (access : AccessType) (disk path : String)
      → Issues (format_commands access disk path) (format env access disk path)
  unfolding format
  Issues-format mount_access disk path = Issues-bind [] _ _ _ (Issues-mkdir_all env path) λ made.
      Issues-bind [] _ _ _ (Issues-maybe [] made _ _ (Issues-pure tt) λ e. Issues-raise _) λ _.
        Issues-bind [] _ _ _ (Issues-sleep 5) λ _.
          Issues-bind (_ ∷ []) _ _ _ (Issues-checked env _)
            λ _. Issues-bind (_ ∷ []) [] _ _ (Issues-checked env _) λ _. Issues-pure path
  Issues-format block_access disk path = Issues-pure disk
  Issues-format (other_access n) disk path = Issues-raise _

  module _ (id : String) (capacity : ℤ) (access : AccessType) where
    -- What a creation in local mode has read and run in all.
    pub record Whole (s t : Globals) : Type 0 where
      pub behind : Globals
      pub made : MadeLocally env id capacity s behind
      pub order :
          commands t.calls
          ≡ noted
              (create_command id capacity
                ∷ show_command
                ∷ (target_commands id (show_ℤ made.tid)
                    ++ format_commands access (local_disk id) (get_volume_path id)))
              (commands s.calls)

    -- what prepare does behind getClusterID
    local_prepare : Go String
    local_prepare =
        create_local env id capacity >>= λ disk. format env access disk (get_volume_path id)

    prepare-local :
        (fuel : ℕ) (s : Globals)
        → IsLocal s
        → prepare env fuel id capacity access s ≡ local_prepare s
    unfolding prepare local_prepare ◌>>=◌
    prepare-local fuel s here = rw (get_cluster_id-local s here) refl

    Whole-prepare :
        (s : Globals) (path : String) → (local_prepare s).0 ≡ ok path → Whole s (local_prepare s).1
    unfolding local_prepare
    Whole-prepare s path h =
        let t = (local_prepare s).1 in
        let a = bind_inv (create_local env id capacity) _ s (λ i. (h i, t)) in
        let s' = (create_local env id capacity s).1 in
        let (m, disk) = made_locally env id capacity s s' a.0 (λ i. (a.1 i, s')) in
        let front = create_command id capacity ∷ show_command ∷ target_commands id (show_ℤ m.tid) in
        record {
          behind = s';
          made = m;
          order =
              ap (λ (u : Result String × Globals). commands u.1.calls) (sym a.2)
              ∙ (Issues-format access a.0 (get_volume_path id)).at s' path (ap (λ p. p.0) a.2)
              ∙ ap (λ d. noted (format_commands access d (get_volume_path id)) (commands s'.calls))
                  disk
              ∙ ap (noted (format_commands access (local_disk id) (get_volume_path id)))
                  (ap (λ (u : Globals). commands u.calls) m.state ∙ commands-ran front s)
              ∙ noted-append front (format_commands access (local_disk id) (get_volume_path id))
                  (commands s.calls);
        }

    -- what createFlexblockVolume does behind prepare
    register : String → Bool → String → Go Volume
    register name ephemeral path = do
      let vol = new_volume id name capacity access ephemeral path
      put_volume id vol
      save_existing_vol env
      pure vol

    Issues-register :
        (name : String) (ephemeral : Bool) (path : String)
        → Issues [] (register name ephemeral path)
    unfolding register put_volume modify
    Issues-register name ephemeral path =
        Issues-bind [] [] _ _ (record { at = λ s u h. refl })
          λ _. Issues-bind [] [] _ _ (Issues-save env) λ _. Issues-pure _

    -- Where createFlexblockVolume succeeds in local mode, no target with the volume's name was shown behind the first
    -- command, the new target's number is the one behind the last that was shown, and just these commands were
    -- run, in this order: the one that makes the device, the one that shows the targets, the six that make
    -- the target and log in to it, and for a mount volume the two that make its file system and mount it.
    pub created_in_local_mode :
        (fuel : ℕ) (name : String) (ephemeral : Bool) (s : Globals) (vol : Volume)
        → IsLocal s
        → (create_flexblock_volume env fuel id name capacity access ephemeral s).0 ≡ ok vol
        → Whole s (create_flexblock_volume env fuel id name capacity access ephemeral s).1
    unfolding create_flexblock_volume register
    created_in_local_mode fuel name ephemeral s vol here h =
        let t = (create_flexblock_volume env fuel id name capacity access ephemeral s).1 in
        let a =
          bind_inv (prepare env fuel id capacity access) (register name ephemeral) s
            (λ i. (h i, t)) in
        let same = prepare-local fuel s here in
        let w = Whole-prepare s a.0 (ap (λ p. p.0) (sym same) ∙ a.1) in
        let s' = (prepare env fuel id capacity access s).1 in
        record {
          behind = w.behind;
          made = w.made;
          order =
              ap (λ (u : Result Volume × Globals). commands u.1.calls) (sym a.2)
              ∙ (Issues-register name ephemeral a.0).at s' vol (ap (λ p. p.0) a.2)
              ∙ ap (λ (u : Result String × Globals). commands u.1.calls) same
              ∙ w.order;
        }
