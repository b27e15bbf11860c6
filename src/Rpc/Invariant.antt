-- ===== src/Rpc/Invariant.antt =====
-- An invariant of the driver's state that creating, deleting and resizing a volume keep is kept by the
-- calls of the controller.
use csi_driver_flexblock.Prelude.Text.{byte_size, byte_size}
use csi_driver_flexblock.Controller.Snapshots.{drop_snapshot, delete_snapshot}
use csi_driver_flexblock.Driver.Update.{update_flexblock_volume}
use csi_driver_flexblock.Driver.Delete.{delete_flexblock_volume}
use csi_driver_flexblock.Sys.Frame.{Frame-remove_all}
use csi_driver_flexblock.Driver.Create.{create_flexblock_volume}
use csi_driver_flexblock.Paths.{get_volume_path}
use csi_driver_flexblock.Controller.Frame.{
  Frame-reuse_volume, Frame-get_volume_by_name, Frame-topologies, Frame-populate,
}
use csi_driver_flexblock.Go.Frame.{Frame-optional, Frame-attempt, Frame}
use csi_driver_flexblock.Store.{get_volume_by_id}
use csi_driver_flexblock.Volume.{erase, lookup, max_storage_capacity, Volume, AccessType}
use csi_driver_flexblock.Go.Keeps.{
  Keeps-pure, Keeps-require_bind, Keeps-raise, Keeps-wrap, Keeps-crash, Keeps-maybe, Keeps-require,
  keeps_rules, Keeps-framed, IsFramed, Keeps-bind, Keeps,
}
use csi_driver_flexblock.Csi.{required_bytes, ContentSource, CreateVolumeRequest}
use csi_driver_flexblock.Controller.{ControllerServer, validate_request}
use csi_driver_flexblock.Go.{modify, Code, ◌>>=◌, wrap, Go}
use csi_driver_flexblock.Controller.Create.{
  create_or_reuse, create_volume, fresh_volume, populate_or_delete,
}
use csi_driver_flexblock.Controller.Volumes.{grow, controller_expand_volume, delete_volume}
use csi_driver_flexblock.Env.{Globals, Env}
use csi_driver_flexblock.Prelude.Int.{◌≤ℤ◌, ltb_ℤ, ℤ}
use csi_driver_flexblock.Prelude.{
  refl, false, ltb, Bool-cases, inr, inl, Bool, some, Option-cases, arith, true, String, ℕ, List,
  Option, ◌≡◌,
}

-- The invariant, what it says of each volume in the map, and that the three operations keep it.
pub record Invariant (env : Env) : Type 1 where
  pub Holds : Globals → Type 0
  pub Knows : String → Volume → Type 0
  pub framed : IsFramed Holds
  pub known :
      (s : Globals) (id : String) (vol : Volume)
      → Holds s
      → lookup id s.volumes ≡ some vol
      → Knows id vol
  pub kept_by_create :
      (fuel : ℕ) (id name : String) (capacity : ℤ) (access : AccessType) (ephemeral : Bool)
      → capacity ≤ℤ max_storage_capacity
      → Keeps Holds (create_flexblock_volume env fuel id name capacity access ephemeral)
  pub kept_by_delete : (id : String) → Keeps Holds (delete_flexblock_volume env id)
  pub kept_by_update :
      (id : String) (vol : Volume) (capacity : ℤ)
      → Knows id vol
      → capacity ≤ℤ max_storage_capacity
      → Keeps Holds (update_flexblock_volume env id (record vol { vol_size = capacity }))

pub below_max :
    (capacity : ℤ) → ltb_ℤ capacity max_storage_capacity ≡ true → capacity ≤ℤ max_storage_capacity
below_max capacity h = ground arith

module _ (env : Env) (inv : Invariant env) where
  open inv use {Holds, Knows, framed, known, kept_by_create, kept_by_delete, kept_by_update}

  -- Behind a lookup the rest may use what the invariant says of the volume found.
  pub Keeps-get_volume {ℓ} :
      {A : Type ℓ} (c : Code) (id : String) (f : Volume → Go A)
      → ((vol : Volume) → Knows id vol → Keeps Holds (f vol))
      → Keeps Holds (wrap c (get_volume_by_id id) >>= f)
  unfolding wrap get_volume_by_id ◌>>=◌
  Keeps-get_volume c id f kf = record {
    at = λ s p. elim (Option-cases (lookup id s.volumes)) [
      | inl absent ↦ rw absent p
      | inr (vol, found) ↦ rw found ((kf vol (known s id vol p found)).at s p)
    ];
  }

  pub Keeps-Frame {ℓ} : {A : Type ℓ} (m : Go A) → Frame m → Keeps Holds m
  Keeps-Frame m f = Keeps-framed framed m f

  Keeps-grow :
      (id : String) (vol : Volume) (capacity : ℤ)
      → Knows id vol
      → capacity ≤ℤ max_storage_capacity
      → Keeps Holds (grow env id vol capacity)
  unfolding grow
  Keeps-grow id vol capacity k b = elim (Bool-cases (ltb_ℤ vol.vol_size capacity)) [
    | inl smaller ↦
        rw smaller
          (Keeps-bind _ _ (Keeps-wrap _ _ (kept_by_update id vol capacity k b)) λ _. Keeps-pure _)
    | inr enough ↦ rw enough (Keeps-pure _)
  ]

  pub Keeps-expand :
      (id : String) (range : Option ℤ) → Keeps Holds (controller_expand_volume env id range)
  unfolding controller_expand_volume
  Keeps-expand id range = Keeps-bind _ _ (Keeps-require _ _) λ _.
      Keeps-maybe _ _ _ (Keeps-raise _) λ capacity. Keeps-require_bind _ _ _ λ below.
        Keeps-get_volume _ _ _ λ vol k. Keeps-grow id vol capacity k (below_max capacity below)

  pub Keeps-delete_volume :
      (cs : ControllerServer) (id : String) → Keeps Holds (delete_volume env cs id)
  unfolding delete_volume validate_request
  Keeps-delete_volume cs id = search (keeps_rules, kept_by_delete)

  Keeps-populate_or_delete :
      (id : String) (capacity : ℤ) (access : AccessType) (source : Option ContentSource)
      → Keeps Holds (populate_or_delete env id capacity access source)
  unfolding populate_or_delete
  Keeps-populate_or_delete id capacity access source =
      Keeps-bind _ _
        (Keeps-Frame _
          (Frame-attempt _ (Frame-populate env capacity (get_volume_path id) access source)))
        λ error. search (keeps_rules, kept_by_delete) depth 8

  Keeps-fresh_volume :
      (fuel : ℕ) (req : CreateVolumeRequest) (access : AccessType) (nodes : List String)
      → required_bytes req.capacity_range ≤ℤ max_storage_capacity
      → Keeps Holds (fresh_volume env fuel req access nodes)
  unfolding fresh_volume
  Keeps-fresh_volume fuel req access nodes b = elim (Bool-cases (ltb (byte_size req.name) 4)) [
    | inl short ↦ rw short Keeps-crash
    | inr long ↦ rw long (
        Keeps-bind _ _ (Keeps-wrap _ _ (kept_by_create fuel _ _ _ access false b))
          λ vol. Keeps-bind _ _ (Keeps-populate_or_delete _ _ access _) λ _. Keeps-pure _)
  ]

  pub Keeps-create_volume :
      (fuel : ℕ) (cs : ControllerServer) (req : CreateVolumeRequest)
      → Keeps Holds (create_volume env fuel cs req)
  unfolding create_volume validate_request create_or_reuse
  Keeps-create_volume fuel cs req = Keeps-bind _ _ (Keeps-require _ _) λ _.
      Keeps-bind _ _ (Keeps-require _ _) λ _. Keeps-maybe _ _ _ (Keeps-raise _) λ caps.
        Keeps-bind _ _ (Keeps-require _ _) λ _. Keeps-require_bind _ _ _ λ below.
          Keeps-bind _ _ (Keeps-Frame _ (Frame-topologies env cs)) λ nodes.
            Keeps-bind _ _ (Keeps-Frame _ (Frame-optional _ (Frame-get_volume_by_name env _)))
              λ existing.
                Keeps-maybe _ _ _ (Keeps-fresh_volume fuel req _ nodes (below_max _ below))
                  λ vol. Keeps-Frame _ (Frame-reuse_volume req nodes vol)

  pub Keeps-delete_snapshot :
      (cs : ControllerServer) (id : String) → Keeps Holds (delete_snapshot env cs id)
  unfolding delete_snapshot validate_request drop_snapshot modify
  Keeps-delete_snapshot cs id = Keeps-bind _ _ (Keeps-require _ _) λ _.
      Keeps-bind _ _ (Keeps-require _ _) λ _.
        Keeps-bind _ _ (Keeps-Frame _ (Frame-remove_all env _)) λ _. record {
          at = λ s p. framed s (record s { snapshots = erase id s.snapshots }) refl refl p;
        }
