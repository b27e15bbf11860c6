-- ===== src/Controller/Made.antt =====
-- What CreateVolume leaves in the map of volumes when it has made a volume.
use csi_driver_flexblock.Controller.Frame.{Frame-populate}
use csi_driver_flexblock.Go.Frame.{Frame-attempt}
use csi_driver_flexblock.Paths.{get_volume_path}
use csi_driver_flexblock.Driver.Delete.{delete_flexblock_volume}
use csi_driver_flexblock.Driver.Laws.{Created}
use csi_driver_flexblock.Prelude.Int.{ℤ}
use csi_driver_flexblock.Go.Inversion.{ok_inj, err_ne_ok, bind_inv}
use csi_driver_flexblock.Volume.{Volumes, AccessType, insert, Volume}
use csi_driver_flexblock.Prelude.Text.{skip_bytes}
use csi_driver_flexblock.Go.{Error, attempt, raise, pure, ok, maybe, ◌>>=◌, Go}
use csi_driver_flexblock.Controller.Create.{populate, created, populate_or_delete}
use csi_driver_flexblock.Csi.{ContentSource, required_bytes, CsiVolume, CreateVolumeRequest}
use csi_driver_flexblock.Env.{Env, Globals}
use csi_driver_flexblock.Prelude.{false, ap, ◌∙◌, sym, String, List, Option, none, some, ◌≡◌}

-- What a created volume leaves in the map.
pub record Made (req : CreateVolumeRequest) (old : Volumes) (v : CsiVolume) (new : Volumes)
    : Type 0 where
  pub vol : Volume
  pub at_insert : new ≡ insert (skip_bytes 4 req.name) vol old
  pub named : vol.vol_name ≡ req.name
  pub sized : vol.vol_size ≡ required_bytes req.capacity_range
  pub identified : vol.vol_id ≡ skip_bytes 4 req.name
  pub no_parent_volume : vol.parent_vol_id ≡ ""
  pub no_parent_snapshot : vol.parent_snap_id ≡ ""
  pub replied_id : v.volume_id ≡ skip_bytes 4 req.name
  pub replied_size : v.capacity_bytes ≡ required_bytes req.capacity_range

-- What is returned for the error of populating, if there is one.
after_populate : Env → String → Option Error → Go (Unit {0})
after_populate env id error =
    maybe error (pure tt) λ e. do ignored ← attempt (delete_flexblock_volume env id); raise e

after_populate_inv :
    (env : Env) (id : String) (error : Option Error) (s : Globals) (x : Unit {0}) (t : Globals)
    → after_populate env id error s ≡ (ok x, t)
    → t ≡ s
unfolding after_populate maybe pure raise
after_populate_inv env id none s x t h = sym (ap (λ p. p.1) h)
after_populate_inv env id (some e) s x t h =
    let (ignored, ran, raised) =
      bind_inv (attempt (delete_flexblock_volume env id)) (λ _. raise e) s h in
    absurd (err_ne_ok (ap (λ p. p.0) raised))

-- A volume that is populated is left in the map, and nothing else is changed there.
pub populated :
    (env : Env) (id : String) (capacity : ℤ) (access : AccessType) (source : Option ContentSource)
    (s : Globals) (x : Unit {0}) (t : Globals)
    → populate_or_delete env id capacity access source s ≡ (ok x, t)
    → t.volumes ≡ s.volumes
unfolding populate_or_delete after_populate
populated env id capacity access source s x t h =
    let (error, ran, rest) =
      bind_inv (attempt (populate env capacity (get_volume_path id) access source))
        (after_populate env id) s h in
    ap (λ (u : Globals). u.volumes) (after_populate_inv env id error _ x t rest)
    ∙ (Frame-attempt _ (Frame-populate env capacity (get_volume_path id) access source)).volumes s

pub Made-of :
    (req : CreateVolumeRequest) (old mid new : Globals) (access : AccessType) (vol : Volume)
    (v : CsiVolume) (nodes : List String)
    → Created
        (skip_bytes 4 req.name)
        req.name
        (required_bytes req.capacity_range)
        access
        false
        old.volumes
        (ok vol)
        mid.volumes
    → created req (skip_bytes 4 req.name) (required_bytes req.capacity_range) nodes ≡ v
    → new.volumes ≡ mid.volumes
    → Made req old.volumes v new.volumes
Made-of req old mid new access vol v nodes (kept, at_id, at_name, at_size, _, _, no_vol, no_snap, _)
      reply same =
    record {
      vol = vol;
      at_insert = same ∙ kept;
      named = at_name;
      sized = at_size;
      identified = at_id;
      no_parent_volume = no_vol;
      no_parent_snapshot = no_snap;
      replied_id = sym (ap (λ w. w.volume_id) reply);
      replied_size = sym (ap (λ w. w.capacity_bytes) reply);
    }

pub reply_of : (a w : CsiVolume) (s t : Globals) → pure a s ≡ (ok w, t) → a ≡ w
unfolding pure
reply_of a w s t e = ok_inj (ap (λ p. p.0) e)

pub state_of : (a w : CsiVolume) (s t : Globals) → pure a s ≡ (ok w, t) → s ≡ t
unfolding pure
state_of a w s t e = ap (λ p. p.1) e
