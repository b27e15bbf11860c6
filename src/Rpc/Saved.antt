-- ===== src/Rpc/Saved.antt =====
-- The file that keeps the volumes, and the map.
use csi_driver_flexblock.Identity.{Servers}
use csi_driver_flexblock.Driver.Frame.{Frame-resize, Frame-prepare, Frame-tear_down}
use csi_driver_flexblock.Rpc.{serve, Rpc}
use csi_driver_flexblock.Prelude.Int.{ℤ}
use csi_driver_flexblock.Volume.{AccessType, Volume}
use csi_driver_flexblock.Driver.Delete.{delete_and_store, delete_flexblock_volume}
use csi_driver_flexblock.Store.{put_volume, drop_volume, save_existing_vol}
use csi_driver_flexblock.Rpc.Invariant.{Invariant}
use csi_driver_flexblock.Rpc.Induction.{serve_induction}
use csi_driver_flexblock.Go.Keeps.{
  Keeps-pure, Keeps-maybe, Keeps-gets, Keeps-framed, Keeps-bind, Keeps, IsFramed,
}
use csi_driver_flexblock.Driver.Create.{create_flexblock_volume}
use csi_driver_flexblock.Go.{◌>>◌, pure, ◌>>=◌, modify}
use csi_driver_flexblock.Driver.Update.{resize_and_store, update_flexblock_volume}
use csi_driver_flexblock.Driver.Laws.{volumes-save, save-ok, written-save, CanSave}
use csi_driver_flexblock.Env.{last_written, Globals, Env}
use csi_driver_flexblock.Prelude.{sym, Bool, ap, ◌∙◌, String, ℕ, List, some, ◌≡◌}

abbrev pub IsSaved : Globals → Type 0
IsSaved s = last_written s.calls ≡ some s.volumes

module _ (env : Env) (can : CanSave env) where
  IsSaved-save : (s : Globals) → IsSaved (save_existing_vol env s).1
  IsSaved-save s = written-save env s can ∙ ap some (sym (volumes-save env s))

  IsFramed-IsSaved : IsFramed IsSaved
  IsFramed-IsSaved s t same file saved = file ∙ saved ∙ ap some (sym same)

  -- Whatever is written to the map is saved at once.
  Keeps-modify_save : (f : Globals → Globals) → Keeps IsSaved (modify f >> save_existing_vol env)
  unfolding modify ◌>>=◌
  Keeps-modify_save f = record { at = λ s p. IsSaved-save (f s) }

  Keeps-register :
      (f : Globals → Globals) (vol : Volume)
      → Keeps IsSaved (modify f >> (save_existing_vol env >> pure vol))
  unfolding modify ◌>>=◌ pure
  Keeps-register f vol = record { at = λ s p. rw (save-ok env (f s)) (IsSaved-save (f s)) }

  Keeps-delete_and_store :
      (id : String) (access : AccessType) → Keeps IsSaved (delete_and_store env id access)
  unfolding delete_and_store drop_volume
  Keeps-delete_and_store id access =
      Keeps-bind _ _ (Keeps-framed IsFramed-IsSaved _ (Frame-tear_down env id access))
        λ _. Keeps-modify_save _

  Keeps-resize_and_store :
      (id : String) (vol : Volume) (access : AccessType)
      → Keeps IsSaved (resize_and_store env id vol access)
  unfolding resize_and_store put_volume
  Keeps-resize_and_store id vol access =
      Keeps-bind _ _ (Keeps-framed IsFramed-IsSaved _ (Frame-resize env id access vol.vol_size))
        λ _. Keeps-modify_save _

  Keeps-create :
      (fuel : ℕ) (id name : String) (capacity : ℤ) (access : AccessType) (ephemeral : Bool)
      → Keeps IsSaved (create_flexblock_volume env fuel id name capacity access ephemeral)
  unfolding create_flexblock_volume put_volume
  Keeps-create fuel id name capacity access ephemeral =
      Keeps-bind _ _ (Keeps-framed IsFramed-IsSaved _ (Frame-prepare env fuel id capacity access))
        λ path. Keeps-register _ _

  Keeps-delete : (id : String) → Keeps IsSaved (delete_flexblock_volume env id)
  unfolding delete_flexblock_volume
  Keeps-delete id =
      Keeps-bind _ _ (Keeps-gets _) λ found.
        Keeps-maybe _ _ _ (Keeps-pure _) λ vol. Keeps-delete_and_store id vol.vol_access_type

  Keeps-update : (id : String) (new : Volume) → Keeps IsSaved (update_flexblock_volume env id new)
  unfolding update_flexblock_volume
  Keeps-update id new = Keeps-bind _ _ (Keeps-gets _) λ found.
      Keeps-maybe _ _ _ (Keeps-pure _) λ vol. Keeps-resize_and_store id new vol.vol_access_type

  abbrev saved : Invariant env
  saved = record {
    Holds = IsSaved;
    Knows = λ id vol. Unit;
    framed = IsFramed-IsSaved;
    known = λ s id vol p found. tt;
    kept_by_create = λ fuel id name capacity access ephemeral b.
        Keeps-create fuel id name capacity access ephemeral;
    kept_by_delete = Keeps-delete;
    kept_by_update = λ id vol capacity k b. Keeps-update id (record vol { vol_size = capacity });
  }

  -- If the file of the volumes can be opened and the map encoded to it, and the map that was last written to it is
  -- the driver's, then this is so again behind any calls, those that fail included.
  pub IsSaved-serve :
      (fuel : ℕ) (srv : Servers) (rs : List Rpc) (s : Globals)
      → IsSaved s
      → IsSaved (serve env fuel srv rs s)
  IsSaved-serve fuel srv rs s p = serve_induction env saved fuel srv rs s p
