-- ===== src/Controller/Listing.antt =====
-- The snapshots that ListSnapshots lists, and their order.
use csi_driver_flexblock.Controller.Pages.{list_page-crashes}
use csi_driver_flexblock.Prelude.Int.{pos, negsuc}
use csi_driver_flexblock.Controller.{list_snapshots, has_rpc, ControllerServer, validate_request}
use csi_driver_flexblock.Csi.{ListSnapshotsRequest, CsiSnapshot}
use csi_driver_flexblock.Go.{panic, ◌>>=◌, pure, maybe, require, ok, gets}
use csi_driver_flexblock.Volume.{lookup, Snapshot, Snapshots}
use csi_driver_flexblock.Env.{Globals, History, Env}
use csi_driver_flexblock.Controller.Snapshots.{
  starting_token_of, list_page, list_snapshots_rpc, snapshots_at, sorted_snapshots, keys_of, sort,
  insert_sorted,
}
use mathlib.Core.HLevel.{hedberg}
use mathlib.Core.List.{Perm, foldr}
use mathlib.Core.List as Lists
use mathlib.Core.List.Perm
use csi_driver_flexblock.Prelude.{
  some, ◌^◌, ◌<◌, length, ℕ, if◌then◌else◌, Option, none, false≢true, eq_iff, inr, inl, sym, ◌=ₛ◌,
  false, ◌∙◌, true, Bool-cases, ap, List, ◌≡◌, String, ◌∷◌, [], refl,
}
use csi_driver_flexblock.Prelude.Text.Order.{
  not_above, not_above-total, not_above_trans, not_above-antisym,
}

-- A range over the map of snapshots visits each entry once, in some order.
pub record RangesSnapshots (env : Env) : Type 0 where
  pub permutes :
      (h : History) (snaps : Snapshots)
      → Perm (keys_of (env.range_snapshots h snaps)) (keys_of snaps)

abbrev pub IsAscending : List String → Type 0
IsAscending [] = Unit
IsAscending (k ∷ []) = Unit
IsAscending (k ∷ j ∷ ks) = (not_above k j ≡ true) × IsAscending (j ∷ ks)

-- two insertions, of which the first text stands before the second
insert-insert_below :
    (x y : String) (l : List String)
    → not_above x y ≡ true
    → not_above y x ≡ false
    → insert_sorted x (insert_sorted y l) ≡ insert_sorted y (insert_sorted x l)
unfolding insert_sorted
insert-insert_below x y [] h k = rw h (rw k refl)
insert-insert_below x y (j ∷ js) h k = elim (Bool-cases (not_above y j)) [
  | inl yj ↦ rw yj (rw h (rw (not_above_trans x y j h yj) (rw k (rw yj refl))))
  | inr jy ↦ elim (Bool-cases (not_above x j)) [
    | inl xj ↦ rw jy (rw xj (rw k (rw jy refl)))
    | inr jx ↦ rw jy (rw jx (rw jy (ap (λ ks. j ∷ ks) (insert-insert_below x y js h k))))
  ]
]

insert-insert :
    (x y : String) (l : List String)
    → insert_sorted x (insert_sorted y l) ≡ insert_sorted y (insert_sorted x l)
insert-insert x y l = elim (Bool-cases (not_above x y)) [
  | inl xy ↦ elim (Bool-cases (not_above y x)) [
    | inl yx ↦ let e = not_above-antisym x y xy yx in rw e refl
    | inr differ ↦ insert-insert_below x y l xy differ
  ]
  | inr differ ↦ sym (insert-insert_below y x l (not_above-total x y differ) differ)
]

String-Dec : (s t : String) → Dec (s ≡ t)
String-Dec s t = elim (Bool-cases (s =ₛ t)) [
  | inl same ↦ yes ((eq_iff s t).0 same)
  | inr differ ↦ no (λ e. false≢true (sym differ ∙ (eq_iff s t).1 e))
]

texts_set : IsSet (List String)
texts_set = Lists.is_set (hedberg String-Dec)

sort-foldr : (ks : List String) → sort ks ≡ foldr insert_sorted [] ks
unfolding sort
sort-foldr [] = refl
sort-foldr (k ∷ ks) = ap (insert_sorted k) (sort-foldr ks)

-- Sorting forgets the order.
sort-eq_of_perm : {ks js : List String} → Perm ks js → sort ks ≡ sort js
sort-eq_of_perm {ks} {js} p =
    sort-foldr ks ∙ Perm.foldr-eq texts_set insert_sorted insert-insert p [] ∙ sym (sort-foldr js)

insert_sorted-perm : (k : String) (l : List String) → Perm (insert_sorted k l) (k ∷ l)
unfolding insert_sorted
insert_sorted-perm k [] = Perm.rfl
insert_sorted-perm k (j ∷ js) = elim (Bool-cases (not_above k j)) [
  | inl before ↦ rw before Perm.rfl
  | inr behind ↦ rw behind (Perm.trans (Perm.cons j (insert_sorted-perm k js)) (Perm.swap k j js))
]

sort-perm : (l : List String) → Perm (sort l) l
unfolding sort
sort-perm [] = Perm.rfl
sort-perm (k ∷ ks) = Perm.trans (insert_sorted-perm k (sort ks)) (Perm.cons k (sort-perm ks))

insert_behind :
    (j k : String) (js : List String)
    → not_above j k ≡ true
    → IsAscending (j ∷ js)
    → IsAscending (j ∷ insert_sorted k js)
unfolding insert_sorted
insert_behind j k [] h asc = (h, tt)
insert_behind j k (i ∷ is) h (ji, asc) = elim (Bool-cases (not_above k i)) [
  | inl before ↦ rw before (h, (before, asc))
  | inr behind ↦ rw behind (ji, insert_behind i k is (not_above-total k i behind) asc)
]

insert_sorted-IsAscending :
    (k : String) (l : List String) → IsAscending l → IsAscending (insert_sorted k l)
unfolding insert_sorted
insert_sorted-IsAscending k [] asc = tt
insert_sorted-IsAscending k (j ∷ js) asc = elim (Bool-cases (not_above k j)) [
  | inl before ↦ rw before (before, asc)
  | inr behind ↦ rw behind (insert_behind j k js (not_above-total k j behind) asc)
]

sort-IsAscending : (l : List String) → IsAscending (sort l)
unfolding sort
sort-IsAscending [] = tt
sort-IsAscending (k ∷ ks) = insert_sorted-IsAscending k (sort ks) (sort-IsAscending ks)

-- the snapshots of a map by their ids
abbrev pub listed : Snapshots → List CsiSnapshot
listed snaps = snapshots_at (sort (keys_of snaps)) snaps

sorted_snapshots-listed :
    (env : Env) (s : Globals)
    → RangesSnapshots env
    → sorted_snapshots env s ≡ (ok (listed s.snapshots), s)
unfolding sorted_snapshots gets
sorted_snapshots-listed env s ranges =
    ap (λ ks. (ok (snapshots_at ks s.snapshots), s))
      (sort-eq_of_perm (ranges.permutes s.calls s.snapshots))

-- the snapshot that a request asks for by its id
abbrev pub asked_for : ListSnapshotsRequest → Snapshots → Option Snapshot
asked_for req snaps = if req.snapshot_id =ₛ "" then none else lookup req.snapshot_id snaps

pub list_snapshots-order :
    (env : Env) (cs : ControllerServer) (req : ListSnapshotsRequest) (s : Globals)
    → RangesSnapshots env
    → has_rpc list_snapshots cs.caps ≡ true
    → asked_for req s.snapshots ≡ none
    → req.source_volume_id ≡ ""
    → (list_snapshots_rpc env cs req s ≡ list_page (listed s.snapshots) req s)
      × IsAscending (sort (keys_of s.snapshots))
      × Perm (sort (keys_of s.snapshots)) (keys_of s.snapshots)
unfolding list_snapshots_rpc validate_request require gets maybe pure ◌>>=◌
list_snapshots-order env cs req s ranges announced unanswered no_source = (
  rw announced (rw unanswered (rw no_source (rw (sorted_snapshots-listed env s ranges) refl))),
  sort-IsAscending _,
  sort-perm _,
)

-- If a range over the map of snapshots visits each entry once, then a ListSnapshots, of a controller that announces
-- the capability, that names no source, and no snapshot or one that is not there, with no limit, and with a
-- starting token that is below 0 as an int32, panics, where there are fewer than 2^31 snapshots.
pub list_snapshots-crashes :
    (env : Env) (cs : ControllerServer) (req : ListSnapshotsRequest) (k : ℕ) (s : Globals)
    → RangesSnapshots env
    → has_rpc list_snapshots cs.caps ≡ true
    → asked_for req s.snapshots ≡ none
    → req.source_volume_id ≡ ""
    → length (listed s.snapshots) < 2 ^ 31
    → k < 2 ^ 31
    → starting_token_of req.starting_token ≡ some (negsuc k)
    → req.max_entries ≡ pos 0
    → list_snapshots_rpc env cs req s ≡ (panic, s)
list_snapshots-crashes env cs req k s ranges announced unanswered no_source small token starts
      limited =
    (list_snapshots-order env cs req s ranges announced unanswered no_source).0
    ∙ list_page-crashes (listed s.snapshots) req k s small token starts limited
