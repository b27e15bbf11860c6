-- ===== src/Driver/Commands.antt =====
-- The commands that are run on the host in local mode, and their order.
pub mod Delete
pub mod Prefix
pub mod Issues
pub mod Whole
pub mod WholeDelete
use csi_driver_flexblock.Prelude.Decimal.{show_ℤ}
use csi_driver_flexblock.Go.Inversion.{ok_inj, bind_inv, panic_ne_ok, require_inv}
use csi_driver_flexblock.Prelude.Int.{ℤ}
use csi_driver_flexblock.Prelude.Text.{contains, ◌<>◌}
use csi_driver_flexblock.Driver.Create.{create_local, make_target}
use csi_driver_flexblock.Sys.{run}
use csi_driver_flexblock.Go.{
  crash, maybe, pending, panic, err, continue, Result, Error, raise, pure, require, ok, ◌>>◌, ◌>>=◌,
  Go,
}
use csi_driver_flexblock.Driver.Disk.{next_tid, local_disk, size_in_mib, local_iqn, checked}
use csi_driver_flexblock.Env.{Output, Call, Globals, Env}
use csi_driver_flexblock.Prelude.{
  not_inv, none, sym, some, Option, not, ap, ◌∙◌, false, true, Bool, ◌++◌, ◌≡◌, List, String, refl,
  ◌∷◌, [],
}

-- the state behind a list of commands
abbrev pub ran : List (List String) → Globals → Globals
ran [] s = s
ran (c ∷ cs) s = ran cs (record s { calls = Call.run c ∷ s.calls })

-- A function that, where it succeeds, has run just these commands.
pub record Runs (cmds : List (List String)) (m : Go (Unit {0})) : Type 0 where
  pub at : (s : Globals) (u : Unit {0}) → (m s).0 ≡ ok u → (m s).1 ≡ ran cmds s

ran-append : (as' bs : List (List String)) (s : Globals) → ran bs (ran as' s) ≡ ran (as' ++ bs) s
ran-append [] bs s = refl
ran-append (c ∷ as') bs s = ran-append as' bs _

pub require-state : (b : Bool) (e : Error) (s : Globals) → (require b e s).1 ≡ s
unfolding require pure raise
require-state true e s = refl
require-state false e s = refl

module _ (env : Env) where
  pub Runs-checked : (c : List String) → Runs (c ∷ []) (checked env c)
  unfolding checked run ◌>>=◌
  Runs-checked c = record { at = λ s u h. require-state _ _ _ }

ran-continue :
    (as' bs : List (List String)) (r : Result (Unit {0})) (k : Go (Unit {0})) (s s' : Globals)
    → ((u : Unit {0}) → r ≡ ok u → s' ≡ ran as' s)
    → Runs bs k
    → (u : Unit {0}) → (continue r (λ _. k) s').0 ≡ ok u
    → (continue r (λ _. k) s').1 ≡ ran (as' ++ bs) s
ran-continue as' bs (ok v) k s s' given rk u h =
    rk.at s' u h ∙ ap (ran bs) (given v refl) ∙ ran-append as' bs s
ran-continue as' bs (err e) k s s' given rk u h = cc
ran-continue as' bs panic k s s' given rk u h = cc
ran-continue as' bs pending k s s' given rk u h = cc

pub Runs-then :
    (as' bs : List (List String)) (m k : Go (Unit {0}))
    → Runs as' m
    → Runs bs k
    → Runs (as' ++ bs) (m >> k)
unfolding ◌>>=◌
Runs-then as' bs m k rm rk = record {
  at = λ s u h. ran-continue as' bs (m s).0 k s (m s).1 (rm.at s) rk u h;
}

-- the commands that make the target of a volume, in their order
abbrev pub target_commands : String → String → List (List String)
target_commands vol_id tid =
    ("tgtadm"
      ∷ "-L"
      ∷ "iscsi"
      ∷ "-m"
      ∷ "target"
      ∷ "-o"
      ∷ "new"
      ∷ "-t"
      ∷ tid
      ∷ "-T"
      ∷ local_iqn vol_id
      ∷ [])
    ∷ ("tgtadm"
        ∷ "-m"
        ∷ "lu"
        ∷ "-o"
        ∷ "new"
        ∷ "-t"
        ∷ tid
        ∷ "-l"
        ∷ "1"
        ∷ "-E"
        ∷ "flexblock"
        ∷ "-b"
        ∷ ("unix:///var/lib/flex/7000/sock:" <> vol_id)
        ∷ [])
    ∷ ("tgtadm" ∷ "-L" ∷ "iscsi" ∷ "-o" ∷ "bind" ∷ "-m" ∷ "target" ∷ "-t" ∷ tid ∷ "-I" ∷ "127.0.0.1"
        ∷ [])
    ∷ ("nc3kxtarget" ∷ "--dump" ∷ [])
    ∷ ("iscsiadm" ∷ "-m" ∷ "discovery" ∷ "-t" ∷ "st" ∷ "-p" ∷ "127.0.0.1" ∷ [])
    ∷ ("iscsiadm" ∷ "-m" ∷ "node" ∷ "-T" ∷ local_iqn vol_id ∷ "-p" ∷ "127.0.0.1" ∷ "-l" ∷ [])
    ∷ []

Runs-make_target :
    (env : Env) (vol_id tid : String)
    → Runs (target_commands vol_id tid) (make_target env vol_id tid)
unfolding make_target
Runs-make_target env vol_id tid = Runs-then (_ ∷ []) _ _ _ (Runs-checked env _) (
    Runs-then (_ ∷ []) _ _ _ (Runs-checked env _) (
      Runs-then (_ ∷ []) _ _ _ (Runs-checked env _) (
        Runs-then (_ ∷ []) _ _ _ (Runs-checked env _)
          (Runs-then (_ ∷ []) _ _ _ (Runs-checked env _) (Runs-checked env _)))))

abbrev pub create_command : String → ℤ → List String
create_command vol_id capacity = "xioadm" ∷ "vdi" ∷ "create" ∷ vol_id ∷ size_in_mib capacity ∷ []

abbrev pub show_command : List String
show_command = "tgtadm" ∷ "-m" ∷ "target" ∷ "-o" ∷ "show" ∷ []

-- What a creation in local mode has read and run: the text of the targets behind the first command, the number
-- that it gives, and the state behind all commands.
pub record MadeLocally (env : Env) (vol_id : String) (capacity : ℤ) (s t : Globals) : Type 0 where
  pub shown : Output
  pub tid : ℤ
  pub shown_is :
      shown ≡ env.run_answer (Call.run (create_command vol_id capacity) ∷ s.calls) show_command
  pub is_new : contains shown.text (local_iqn vol_id) ≡ false
  pub tid_is : next_tid shown.text ≡ some tid
  pub state :
      t
      ≡ ran (create_command vol_id capacity ∷ show_command ∷ target_commands vol_id (show_ℤ tid)) s

target_step :
    (env : Env) (vol_id disk d : String) (o : Option ℤ) (s t : Globals)
    → ((maybe o crash λ tid. make_target env vol_id (show_ℤ tid)) >> pure disk) s ≡ (ok d, t)
    → (tid : ℤ) × (o ≡ some tid) × (d ≡ disk) × (t ≡ ran (target_commands vol_id (show_ℤ tid)) s)
unfolding maybe crash pure ◌>>=◌
target_step env vol_id disk d none s t h = absurd (panic_ne_ok (ap (λ p. p.0) h))
target_step env vol_id disk d (some tid) s t h =
    let a = bind_inv (make_target env vol_id (show_ℤ tid)) (λ _. pure disk) s h in
    (
      tid,
      refl,
      sym (ok_inj (ap (λ p. p.0) a.2)),
      sym (ap (λ p. p.1) a.2) ∙ (Runs-make_target env vol_id (show_ℤ tid)).at s a.0 a.1,
    )

-- Where the part of createFlexblockVolume for local mode succeeds, no target with the volume's name was shown behind the
-- first command, the new target's number is the one behind the last that was shown, and just these eight
-- commands were run in this part, in this order.
pub made_locally :
    (env : Env) (vol_id : String) (capacity : ℤ) (s t : Globals) (disk : String)
    → create_local env vol_id capacity s ≡ (ok disk, t)
    → MadeLocally env vol_id capacity s t × (disk ≡ local_disk vol_id)
unfolding create_local run ◌>>=◌
made_locally env vol_id capacity s t disk h =
    let a = require_inv _ _ _ _ h in
    let b = require_inv _ _ _ _ a.1 in
    let c = require_inv _ _ _ _ b.1 in
    let d = target_step env vol_id (local_disk vol_id) disk _ _ t c.1 in
    (
      record {
        shown = _;
        tid = d.0;
        shown_is = refl;
        is_new = not_inv _ c.0;
        tid_is = d.1;
        state = d.3;
      },
      d.2,
    )
