-- ===== src/Store/Discover.antt =====
-- What discoverExistingSnapshots finds.
use csi_driver_flexblock.Paths.Laws.{get_snapshot_id_iff}
use csi_driver_flexblock.Prelude.Text.{◌<>◌}
use csi_driver_flexblock.Paths.{snapshot_ext, get_snapshot_id}
use csi_driver_flexblock.Volume.{lookup-insert, Snapshot, insert, lookup, Snapshots}
use csi_driver_flexblock.Store.{found_snapshot, add_snapshots}
use csi_driver_flexblock.Prelude.{
  inr, false≢true, sym, inl, Bool-cases, ◌∙◌, eq_iff, true, ◌||◌, Option, ap, some, ◌=ₛ◌, false,
  ◌≡◌, if◌then◌else◌, Bool, List, String, refl, ◌∷◌, [],
}

-- whether a list of names has the name of a snapshot's file
unfoldable pub has_file : String → List String → Bool
has_file id [] = false
has_file id (file ∷ files) = (file =ₛ id <> snapshot_ext) || has_file id files

-- the map behind one file
abbrev pub add_one : String → Snapshots → Snapshots
add_one file snaps =
    let (is_snapshot, id) = get_snapshot_id file in
    if is_snapshot then insert id (found_snapshot id) snaps else snaps

add_other :
    (file : String) (snaps : Snapshots) (i : String) (is : Bool)
    → get_snapshot_id file ≡ (is, i)
    → add_one file snaps ≡ (if is then insert i (found_snapshot i) snaps else snaps)
add_other file snaps i is h =
    ap (λ (p : Bool × String). if p.0 then insert p.1 (found_snapshot p.1) snaps else snaps) h

lookup-add_one :
    (id file : String) (snaps : Snapshots)
    → lookup id (add_one file snaps)
      ≡ (if file =ₛ id <> snapshot_ext then some (found_snapshot id) else lookup id snaps)
lookup-add_one id file snaps = go (get_snapshot_id file).0 (get_snapshot_id file).1 refl
  where
    named_so :
        (i : String)
        → (i =ₛ id) ≡ true
        → get_snapshot_id file ≡ (true, i)
        → (file =ₛ id <> snapshot_ext) ≡ true
    named_so i same h =
        (eq_iff _ _).1
          ((get_snapshot_id_iff file i).0 h ∙ ap (λ k. k <> snapshot_ext) ((eq_iff i id).0 same))

    not_so :
        (i : String) (is : Bool)
        → get_snapshot_id file ≡ (is, i)
        → ((is ≡ true) → (i =ₛ id) ≡ false)
        → (file =ₛ id <> snapshot_ext) ≡ false
    not_so i is h other = elim (Bool-cases (file =ₛ id <> snapshot_ext)) [
      | inl same ↦
          let e = sym h ∙ (get_snapshot_id_iff file id).1 ((eq_iff _ _).0 same) in
          absurd (false≢true (sym (other (ap (λ p. p.0) e)) ∙ (eq_iff i id).1 (ap (λ p. p.1) e)))
      | inr differ ↦ differ
    ]

    go :
        (is : Bool) (i : String)
        → get_snapshot_id file ≡ (is, i)
        → lookup id (add_one file snaps)
          ≡ (if file =ₛ id <> snapshot_ext then some (found_snapshot id) else lookup id snaps)
    go false i h =
        rw (add_other file snaps i false h)
          (rw (not_so i false h (λ e. absurd (false≢true e))) refl)
    go true i h = rw (add_other file snaps i true h) (
        lookup-insert i id (found_snapshot i) snaps ∙ elim (Bool-cases (i =ₛ id)) [
          | inl same ↦
              rw same
                (rw (named_so i same h) (ap (λ k. some (found_snapshot k)) ((eq_iff i id).0 same)))
          | inr differ ↦ rw differ (rw (not_so i true h (λ _. differ)) refl)
        ])

-- Behind the discovery, an id is a snapshot exactly if a file of its name was there, and then it is ready
-- to use at the path of that file, or if it was one before.
pub lookup-add_snapshots :
    (id : String) (files : List String) (snaps : Snapshots)
    → lookup id (add_snapshots files snaps)
      ≡ (if has_file id files then some (found_snapshot id) else lookup id snaps)
unfolding add_snapshots has_file
lookup-add_snapshots id [] snaps = refl
lookup-add_snapshots id (file ∷ files) snaps =
    lookup-add_snapshots id files (add_one file snaps)
    ∙ ap (λ o. if has_file id files then some (found_snapshot id) else o)
        (lookup-add_one id file snaps)
    ∙ two_tests (file =ₛ id <> snapshot_ext) (has_file id files) (some (found_snapshot id))
        (lookup id snaps)
  where
    two_tests :
        (a b : Bool) (x y : Option Snapshot)
        → (if b then x else if a then x else y) ≡ (if a || b then x else y)
    two_tests true true x y = refl
    two_tests true false x y = refl
    two_tests false true x y = refl
    two_tests false false x y = refl
