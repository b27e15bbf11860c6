-- ===== src/Driver/Commands/Delete.antt =====
-- The commands that are run on the host where a volume is deleted in local mode.
use csi_driver_flexblock.Prelude.Text.{◌<>◌, contains}
use csi_driver_flexblock.Go.Inversion.{require_inv, panic_ne_ok, bind_inv}
use csi_driver_flexblock.Go.{internal, status, require, ◌>>=◌, ok, crash, ◌>>◌, maybe}
use csi_driver_flexblock.Driver.Delete.{delete_target, delete_local}
use csi_driver_flexblock.Prelude.Decimal.{show}
use csi_driver_flexblock.Driver.Disk.{tid_of_match, checked, local_iqn}
use csi_driver_flexblock.Env.{Call, Output, Globals, Env}
use csi_driver_flexblock.Prelude.{
  not, ◌∙◌, sym, none, ap, some, true, Option, ◌≡◌, ◌++◌, List, ℕ, String, ◌∷◌, [], refl,
}
use csi_driver_flexblock.Sys.{run}
use csi_driver_flexblock.Driver.Commands.{Runs, ran, Runs-checked, Runs-then, show_command}

abbrev pub logout_command : String → List String
logout_command vol_id = "iscsiadm" ∷ "-m" ∷ "node" ∷ "-T" ∷ local_iqn vol_id ∷ "-u" ∷ []

abbrev pub forget_command : String → List String
forget_command vol_id =
    "iscsiadm"
    ∷ "-m"
    ∷ "discoverydb"
    ∷ "-n"
    ∷ local_iqn vol_id
    ∷ "-o"
    ∷ "delete"
    ∷ "-t"
    ∷ "st"
    ∷ "-p"
    ∷ "127.0.0.1"
    ∷ []

-- the commands that take the target away
abbrev pub untarget_commands : ℕ → List (List String)
untarget_commands tid =
    ("tgtadm" ∷ "-L" ∷ "iscsi" ∷ "-m" ∷ "target" ∷ "-o" ∷ "delete" ∷ "-t" ∷ show tid ∷ [])
    ∷ ("nc3kxtarget" ∷ "--dump" ∷ [])
    ∷ []

abbrev pub erase_command : String → List String
erase_command vol_id = "xioadm" ∷ "vdi" ∷ "delete" ∷ vol_id ∷ []

-- What a deletion in local mode has read and run: the text of the targets behind the first two commands, the part
-- of it that the regular expression finds, its number, and the state behind all commands.
pub record DeletedLocally (env : Env) (vol_id : String) (s t : Globals) : Type 0 where
  pub shown : Output
  pub found : String
  pub tid : ℕ
  pub shown_is :
      shown
      ≡ env.run_answer
          (Call.run (forget_command vol_id) ∷ Call.run (logout_command vol_id) ∷ s.calls)
          show_command
  pub is_there : contains shown.text (local_iqn vol_id) ≡ true
  pub found_is : env.find_string ("Target [\\d]+: " <> local_iqn vol_id) shown.text ≡ some found
  pub tid_is : tid_of_match found ≡ some tid
  pub state :
      t
      ≡ ran
          (logout_command vol_id
            ∷ forget_command vol_id
            ∷ show_command
            ∷ (untarget_commands tid ++ (erase_command vol_id ∷ [])))
          s

module _ (env : Env) (vol_id : String) where
  Runs-untarget :
      (tid : ℕ)
      → Runs (untarget_commands tid ++ (erase_command vol_id ∷ [])) (do
        (do
          checked env
              ("tgtadm" ∷ "-L" ∷ "iscsi" ∷ "-m" ∷ "target" ∷ "-o" ∷ "delete" ∷ "-t" ∷ show tid ∷ [])
          checked env ("nc3kxtarget" ∷ "--dump" ∷ []))
        checked env (erase_command vol_id))
  Runs-untarget tid =
      Runs-then (untarget_commands tid) _ _ _
        (Runs-then (_ ∷ []) _ _ _ (Runs-checked env _) (Runs-checked env _)) (Runs-checked env _)

  number_step :
      (meid : String) (o : Option ℕ) (s t : Globals) (u : Unit {0})
      → ((maybe o crash λ tid. do
        checked env
            ("tgtadm" ∷ "-L" ∷ "iscsi" ∷ "-m" ∷ "target" ∷ "-o" ∷ "delete" ∷ "-t" ∷ show tid ∷ [])
        checked env ("nc3kxtarget" ∷ "--dump" ∷ []))
            >> checked env (erase_command vol_id))
          s
        ≡ (ok u, t)
      → (tid : ℕ) × (o ≡ some tid)
        × (t ≡ ran (untarget_commands tid ++ (erase_command vol_id ∷ [])) s)
  unfolding maybe crash ◌>>=◌
  number_step meid none s t u h = absurd (panic_ne_ok (ap (λ p. p.0) h))
  number_step meid (some tid) s t u h =
      (tid, refl, sym (ap (λ p. p.1) h) ∙ (Runs-untarget tid).at s u (ap (λ p. p.0) h))

  match_step :
      (o : Option String) (s t : Globals) (u : Unit {0})
      → (maybe o crash (delete_target env) >> checked env (erase_command vol_id)) s ≡ (ok u, t)
      → (meid : String) × (tid : ℕ) × (o ≡ some meid)
        × (tid_of_match meid ≡ some tid)
        × (t ≡ ran (untarget_commands tid ++ (erase_command vol_id ∷ [])) s)
  unfolding maybe crash delete_target ◌>>=◌
  match_step none s t u h = absurd (panic_ne_ok (ap (λ p. p.0) h))
  match_step (some meid) s t u h =
      let a = number_step meid (tid_of_match meid) s t u h in (meid, a.0, refl, a.1, a.2)

  show_step :
      (s t : Globals) (u : Unit {0})
      → (do
        shown ← run env show_command
        require (not shown.failed) (status internal)
        require (contains shown.text (local_iqn vol_id)) (status internal)
        (maybe
            (env.find_string ("Target [\\d]+: " <> local_iqn vol_id) shown.text)
            crash
            (delete_target env))
        checked env (erase_command vol_id))
          s
        ≡ (ok u, t)
      → let shown = env.run_answer s.calls show_command in
        (contains shown.text (local_iqn vol_id) ≡ true)
        × (meid : String) × (tid : ℕ) × (env.find_string
              ("Target [\\d]+: " <> local_iqn vol_id)
              shown.text
            ≡ some meid)
        × (tid_of_match meid ≡ some tid)
        × (t ≡ ran (show_command ∷ (untarget_commands tid ++ (erase_command vol_id ∷ []))) s)
  unfolding run ◌>>=◌
  show_step s t u h =
      let a = require_inv _ _ _ _ h in
      let b = require_inv _ _ _ _ a.1 in
      let m = match_step _ _ t u b.1 in (b.0, m.0, m.1, m.2, m.3, m.4)

  -- Where the part of deleteFlexblockVolume for local mode succeeds, the targets that were shown behind the log-out
  -- hold the volume's name, the number is that of the target which the regular expression found, and just
  -- these commands were run in this part, in this order.
  pub deleted_locally :
      (s t : Globals) (u : Unit {0})
      → delete_local env vol_id s ≡ (ok u, t)
      → DeletedLocally env vol_id s t
  unfolding delete_local
  deleted_locally s t u h =
      let a = bind_inv (checked env (logout_command vol_id)) _ s h in
      let b = bind_inv (checked env (forget_command vol_id)) _ _ a.2 in
      let e =
        (Runs-checked env (forget_command vol_id)).at _ _ b.1
        ∙ ap (ran (forget_command vol_id ∷ []))
            ((Runs-checked env (logout_command vol_id)).at s _ a.1) in
      let c = show_step _ t u (rw e at b.2) in
      record {
        shown = _;
        found = c.1;
        tid = c.2;
        shown_is = refl;
        is_there = c.0;
        found_is = c.3;
        tid_is = c.4;
        state = c.5;
      }
