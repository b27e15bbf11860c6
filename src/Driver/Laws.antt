-- ===== src/Driver/Laws.antt =====
-- What creating, resizing and deleting a volume leave in the map of volumes and in its file, on every
-- outcome.
use csi_driver_flexblock.Paths.{get_volume_path}
use csi_driver_flexblock.Go.Gives.{Gives-raise, Gives-pure, Gives-bind, Gives}
use csi_driver_flexblock.Driver.Delete.{tear_down, delete_and_store}
use csi_driver_flexblock.Driver.Update.{resize, resize_and_store}
use csi_driver_flexblock.Driver.Frame.{Frame-resize, Frame-tear_down, Frame-prepare}
use csi_driver_flexblock.Sys.{write_volumes, open_write, mkdir_all}
use csi_driver_flexblock.Driver.Create.{format, new_volume, prepare, create_flexblock_volume}
use csi_driver_flexblock.Store.{drop_volume, put_volume, save_existing_vol, csi_json_file}
use csi_driver_flexblock.Go.{
  pending, panic, maybe, err, continue, ok, ◌>>◌, pure, Result, modify, ◌>>=◌, Go,
}
use csi_driver_flexblock.Volume.{
  block_access, mount_access, other_access, is_mount, erase, insert, Volume, Volumes, AccessType,
}
use csi_driver_flexblock.Prelude.Int.{ℤ}
use csi_driver_flexblock.Env.{Call, last_written, Globals, History, Env}
use csi_driver_flexblock.Prelude.{
  true, if◌then◌else◌, String, ℕ, Bool, ◌≡◌, refl, none, some, ◌∷◌, arith,
}

-- saveExistingVol succeeds in opening its file and in writing the map to it.
pub record CanSave (env : Env) : Type 0 where
  pub made : (h : History) → env.mkdir_all_answer h "/etc/neucli" ≡ none
  pub opened : (h : History) → env.open_write_answer h csi_json_file ≡ none
  pub encoded : (h : History) (vs : Volumes) → env.encode_answer h vs ≡ true

module _ (env : Env) (s : Globals) where
  pub save-ok : (save_existing_vol env s).0 ≡ ok tt
  unfolding save_existing_vol mkdir_all open_write write_volumes maybe pure ◌>>=◌
  save-ok = ground arith

  pub volumes-save : (save_existing_vol env s).1.volumes ≡ s.volumes
  unfolding save_existing_vol mkdir_all open_write write_volumes maybe pure ◌>>=◌
  volumes-save = ground arith

  -- If the directory can be made, the file opened and the map encoded to it, saveExistingVol writes the map as it is,
  -- and nothing is written behind that.
  pub written-save : CanSave env → last_written (save_existing_vol env s).1.calls ≡ some s.volumes
  unfolding save_existing_vol mkdir_all open_write write_volumes maybe pure ◌>>=◌ last_written
  written-save can =
      let h = Call.mkdir_all "/etc/neucli" ∷ s.calls in
      ground (
        arith,
        can.made s.calls,
        can.opened h,
        can.encoded (Call.open_write csi_json_file ∷ h) s.volumes,
      )

-- What follows a save runs from the state that it leaves.
save-bind {ℓ} :
    {A : Type ℓ} (env : Env) (k : Go A) (s : Globals)
    → (save_existing_vol env >> k) s ≡ k (save_existing_vol env s).1
unfolding ◌>>=◌
save-bind env k s = rw (save-ok env s)

-- A mounted volume is kept under its own path, and other volumes have no path to keep.
abbrev pub IsPlaced : String → AccessType → String → Type 0
IsPlaced id access path =
    (if is_mount access then path else get_volume_path id) ≡ get_volume_path id

Gives-format :
    (env : Env) (id disk : String) (access : AccessType)
    → Gives (IsPlaced id access) (format env access disk (get_volume_path id))
unfolding format
Gives-format env id disk mount_access = Gives-bind _ _ λ made.
    Gives-bind _ _
      λ _. Gives-bind _ _ λ _. Gives-bind _ _ λ _. Gives-bind _ _ λ _. Gives-pure _ refl
Gives-format env id disk block_access = Gives-pure _ refl
Gives-format env id disk (other_access n) = Gives-raise _

Gives-prepare :
    (env : Env) (fuel : ℕ) (id : String) (capacity : ℤ) (access : AccessType)
    → Gives (IsPlaced id access) (prepare env fuel id capacity access)
unfolding prepare
Gives-prepare env fuel id capacity access =
    Gives-bind _ _ λ ids. Gives-bind _ _ λ disk. Gives-format env id disk access

-- What createFlexblockVolume returns and leaves in the map `new`, from the map `old`.
abbrev pub Created :
    String → String → ℤ → AccessType → Bool → Volumes → Result Volume → Volumes → Type 0
Created id name capacity access ephemeral old (ok vol) new =
    (new ≡ insert id vol old)
    × (vol.vol_id ≡ id)
    × (vol.vol_name ≡ name)
    × (vol.vol_size ≡ capacity)
    × (vol.vol_access_type ≡ access)
    × (vol.ephemeral ≡ ephemeral)
    × (vol.parent_vol_id ≡ "")
    × (vol.parent_snap_id ≡ "")
    × IsPlaced id access vol.vol_path
Created id name capacity access ephemeral old (err e) new = new ≡ old
Created id name capacity access ephemeral old panic new = new ≡ old
Created id name capacity access ephemeral old pending new = new ≡ old

module _ (env : Env) (id name : String) (capacity : ℤ) (access : AccessType)
    (ephemeral : Bool) where
  register : String → Go Volume
  register path = do
    put_volume id (new_volume id name capacity access ephemeral path)
    save_existing_vol env
    pure (new_volume id name capacity access ephemeral path)

  Created-register :
      (path : String) (s : Globals)
      → IsPlaced id access path
      → Created id name capacity access ephemeral s.volumes
          (register path s).0
          (register path s).1.volumes
  unfolding register put_volume modify pure ◌>>=◌ new_volume
  Created-register path s placed =
      rw (save-bind env (pure (new_volume id name capacity access ephemeral path)))
        (volumes-save env _, refl, refl, refl, refl, refl, refl, refl, placed)

  Created-continue :
      (old : Volumes) (r : Result String) (s : Globals)
      → s.volumes ≡ old
      → ((path : String) → r ≡ ok path → IsPlaced id access path)
      → Created id name capacity access ephemeral old
          (continue r register s).0
          (continue r register s).1.volumes
  Created-continue old (ok path) s h p = rw (← h) (Created-register path s (p path refl))
  Created-continue old (err e) s h p = h
  Created-continue old panic s h p = h
  Created-continue old pending s h p = h

  -- createFlexblockVolume, whatever its commands answer: if it returns a volume, then the map has that
  -- volume under its id and is otherwise unchanged, the volume has the id, name, size and access type that
  -- were asked for and no parent, and a mounted one has the path of its id. On an error, on a panic, and
  -- where it has not returned, the map is as it was.
  pub Created-create :
      (fuel : ℕ) (s : Globals)
      → Created id name capacity access ephemeral s.volumes
          (create_flexblock_volume env fuel id name capacity access ephemeral s).0
          (create_flexblock_volume env fuel id name capacity access ephemeral s).1.volumes
  unfolding create_flexblock_volume register ◌>>=◌
  Created-create fuel s =
      Created-continue s.volumes (prepare env fuel id capacity access s).0
        (prepare env fuel id capacity access s).1
        ((Frame-prepare env fuel id capacity access).volumes s)
        ((Gives-prepare env fuel id capacity access).at s)

-- What deleteFlexblockVolume leaves in the map.
abbrev pub Deleted : String → Volumes → Result (Unit {0}) → Volumes → Type 0
Deleted id old (ok u) new = new ≡ erase id old
Deleted id old (err e) new = new ≡ old
Deleted id old panic new = new ≡ old
Deleted id old pending new = new ≡ old

-- What updateFlexblockVolume leaves in the map, for an id that is in it.
abbrev pub Updated : String → Volume → Volumes → Result (Unit {0}) → Volumes → Type 0
Updated id vol old (ok u) new = new ≡ insert id vol old
Updated id vol old (err e) new = new ≡ old
Updated id vol old panic new = new ≡ old
Updated id vol old pending new = new ≡ old

module _ (env : Env) (id : String) where
  unregister : Unit {0} → Go (Unit {0})
  unregister u = drop_volume id >> save_existing_vol env

  Deleted-unregister :
      (s : Globals) → Deleted id s.volumes (unregister tt s).0 (unregister tt s).1.volumes
  unfolding unregister drop_volume modify ◌>>=◌
  Deleted-unregister s = rw (save-ok env _) (volumes-save env _)

  Deleted-continue :
      (old : Volumes) (r : Result (Unit {0})) (s : Globals)
      → s.volumes ≡ old
      → Deleted id old (continue r unregister s).0 (continue r unregister s).1.volumes
  Deleted-continue old (ok tt) s h = rw (← h) (Deleted-unregister s)
  Deleted-continue old (err e) s h = h
  Deleted-continue old panic s h = h
  Deleted-continue old pending s h = h

  -- Deleting a volume, whatever the commands answer: on success the id is out of the map, which is
  -- otherwise unchanged; on an error, on a panic, and where it has not returned, the map is as it was.
  pub Deleted-delete_and_store :
      (access : AccessType) (s : Globals)
      → Deleted id s.volumes
          (delete_and_store env id access s).0
          (delete_and_store env id access s).1.volumes
  unfolding delete_and_store unregister ◌>>=◌
  Deleted-delete_and_store access s =
      Deleted-continue s.volumes (tear_down env id access s).0 (tear_down env id access s).1
        ((Frame-tear_down env id access).volumes s)

  module _ (vol : Volume) where
    reregister : Unit {0} → Go (Unit {0})
    reregister u = put_volume id vol >> save_existing_vol env

    Updated-reregister :
        (s : Globals) → Updated id vol s.volumes (reregister tt s).0 (reregister tt s).1.volumes
    unfolding reregister put_volume modify ◌>>=◌
    Updated-reregister s = rw (save-ok env _) (volumes-save env _)

    Updated-continue :
        (old : Volumes) (r : Result (Unit {0})) (s : Globals)
        → s.volumes ≡ old
        → Updated id vol old (continue r reregister s).0 (continue r reregister s).1.volumes
    Updated-continue old (ok tt) s h = rw (← h) (Updated-reregister s)
    Updated-continue old (err e) s h = h
    Updated-continue old panic s h = h
    Updated-continue old pending s h = h

    -- Resizing a volume that is in the map, whatever the commands answer: on success the map has the new
    -- volume under its id and is otherwise unchanged; on an error, on a panic, and where it has not
    -- returned, the map is as it was.
    pub Updated-resize_and_store :
        (access : AccessType) (s : Globals)
        → Updated id vol s.volumes
            (resize_and_store env id vol access s).0
            (resize_and_store env id vol access s).1.volumes
    unfolding resize_and_store reregister ◌>>=◌
    Updated-resize_and_store access s =
        Updated-continue s.volumes (resize env id access vol.vol_size s).0
          (resize env id access vol.vol_size s).1
          ((Frame-resize env id access vol.vol_size).volumes s)
