-- ===== src/Server/Laws.antt =====
-- logGRPC around a handler.
use csi_driver_flexblock.Sys.Frame.{Frame-log}
use csi_driver_flexblock.Go.Frame.{
  Frame-suspend, Frame-crash, Frame-raise, Frame-pure, Frame-bind, Frame,
}
use csi_driver_flexblock.Go.Keeps.{Keeps-framed, Keeps-bind, Keeps-if, Keeps, IsFramed}
use csi_driver_flexblock.Env.{grpc_call, grpc_request, last_written, Call, Globals}
use csi_driver_flexblock.Sys.{log}
use csi_driver_flexblock.Server.{log_around, log_grpc, log_outcome}
use csi_driver_flexblock.Go.{
  pending, panic, err, suspend, crash, raise, ok, ◌>>=◌, pure, Result, Go,
}
use csi_driver_flexblock.Prelude.{
  inr, inl, ◌∷◌, Bool-cases, ◌≡◌, ◌=ₛ◌, ◌∙◌, if◌then◌else◌, String, refl,
}

Frame-log_outcome {ℓ} : {A : Type ℓ} (r : Result A) → Frame (log_outcome r)
unfolding log_outcome
Frame-log_outcome (ok a) = Frame-bind _ _ (Frame-log _) λ _. Frame-pure _
Frame-log_outcome (err e) = Frame-bind _ _ (Frame-log _) λ _. Frame-raise _
Frame-log_outcome panic = Frame-crash
Frame-log_outcome pending = Frame-suspend

result-log_outcome {ℓ} : {A : Type ℓ} (r : Result A) (s : Globals) → (log_outcome r s).0 ≡ r
unfolding log_outcome log pure raise crash suspend ◌>>=◌
result-log_outcome (ok a) s = refl
result-log_outcome (err e) s = refl
result-log_outcome panic s = refl
result-log_outcome pending s = refl

module _ {ℓ} {A : Type ℓ} (handler : Go A) where
  Frame-log_around : Frame handler → Frame (log_around handler)
  unfolding log_around
  Frame-log_around f = record {
    volumes = λ s. (Frame-log_outcome (handler s).0).volumes (handler s).1 ∙ f.volumes s;
    snapshots = λ s. (Frame-log_outcome (handler s).0).snapshots (handler s).1 ∙ f.snapshots s;
    written = λ s. (Frame-log_outcome (handler s).0).written (handler s).1 ∙ f.written s;
  }

  -- The state in which the handler of a call is run.
  abbrev pub before_handler : String → Globals → Globals
  before_handler method s =
      if method =ₛ "/csi.v1.Identity/Probe"
      then s
      else record s { calls = Call.log grpc_request ∷ Call.log (grpc_call method) ∷ s.calls }

  -- A call that goes through logGRPC returns what its handler returns, and leaves the maps, and the file
  -- of the volumes, as the handler leaves them.
  pub log_grpc-same :
      (method : String) (s : Globals)
      → ((log_grpc method handler s).0 ≡ (handler (before_handler method s)).0)
        × ((log_grpc method handler s).1.volumes ≡ (handler (before_handler method s)).1.volumes)
        × ((log_grpc method handler s).1.snapshots
            ≡ (handler (before_handler method s)).1.snapshots)
        × (last_written (log_grpc method handler s).1.calls
            ≡ last_written (handler (before_handler method s)).1.calls)
  unfolding log_grpc log_around log ◌>>=◌
  log_grpc-same method s = elim (Bool-cases (method =ₛ "/csi.v1.Identity/Probe")) [
    | inl probe ↦ rw probe (refl, refl, refl, refl)
    | inr other ↦ rw other (
      result-log_outcome _ _,
      (Frame-log_outcome _).volumes _,
      (Frame-log_outcome _).snapshots _,
      (Frame-log_outcome _).written _,
    )
  ]

  pub Keeps-log_grpc :
      {P : Globals → Type 0} (method : String)
      → IsFramed P
      → Keeps P handler
      → Keeps P (log_grpc method handler)
  unfolding log_grpc log_around
  Keeps-log_grpc method framed k =
      Keeps-if (method =ₛ "/csi.v1.Identity/Probe") _ _ (λ _. k)
        λ _. Keeps-bind _ _ (Keeps-framed framed _ (Frame-log _)) λ _.
          Keeps-bind _ _ (Keeps-framed framed _ (Frame-log _)) λ _. record {
            at = λ s p.
                (Keeps-framed framed _ (Frame-log_outcome (handler s).0)).at (handler s).1
                  (k.at s p);
          }
