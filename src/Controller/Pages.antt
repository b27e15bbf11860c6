-- ===== src/Controller/Pages.antt =====
-- The pages of ListSnapshots.
use csi_driver_flexblock.Go.Inversion.{require-bind, maybe-some}
use csi_driver_flexblock.Prelude.Decimal.{show}
use csi_driver_flexblock.Env.{Globals}
use csi_driver_flexblock.Csi.{ListSnapshotsRequest, CsiSnapshot}
use csi_driver_flexblock.Go.{panic, crash, ok, pure, maybe}
use csi_driver_flexblock.Prelude.Int.{ℤ, negsuc, eq_ℤ, ltb_ℤ, pos}
use csi_driver_flexblock.Controller.Snapshots.{
  starting_token_of, next_token_of, entries_from, entry_count, list_page, page_from, sub_int32,
  int32,
}
use csi_driver_flexblock.Prelude.{
  inr, inl, Bool-cases, true, false, ap, refl, [], ◌∙◌, zero, suc, ◌∷◌, drop, take, ltb, some, ◌+◌,
  get_elem?, ◌||◌, length, ◌==◌, List, if◌then◌else◌, ◌-◌, arith, ◌≤◌, ◌^◌, ◌<◌, ℕ, ◌≡◌,
}

pub int32-small : (n : ℕ) → n < 2 ^ 31 → int32 n ≡ pos n
unfolding int32
int32-small n small = ground arith

sub_int32-small : (n j : ℕ) → n < 2 ^ 31 → j ≤ n → sub_int32 (pos n) (pos j) ≡ pos (n - j)
unfolding sub_int32 int32
sub_int32-small n j small below = ground arith

drop_at {ℓ} :
    {A : Type ℓ} (j : ℕ) (xs : List A)
    → j < length xs
    → (x : A) × (get_elem? xs j ≡ some x) × (drop j xs ≡ x ∷ drop (suc j) xs)
drop_at zero [] below = absurd (omega (arith, below))
drop_at zero (x ∷ xs) below = (x, refl, refl)
drop_at (suc j) [] below = absurd (omega (arith, below))
drop_at (suc j) (y ∷ xs) below =
    let (x, found, rest) = drop_at j xs (omega (arith, below)) in (x, found, rest)

plus_one : (n : ℕ) → n + 1 ≡ suc n
plus_one n = omega arith

entries_from-take :
    (n j : ℕ) (snaps : List CsiSnapshot)
    → j + n ≤ length snaps
    → entries_from n j snaps ≡ some (take n (drop j snaps))
unfolding entries_from
entries_from-take zero j snaps fits = refl
entries_from-take (suc n) j snaps fits =
    let (x, found, rest) = drop_at j snaps (omega (arith, fits)) in
    rw
      (
        entries_from,
        found,
        plus_one j,
        entries_from-take n (suc j) snaps (omega (arith, fits)),
        rest,
      )
      refl

-- the number of entries of a page
abbrev pub page_size : ℕ → ℕ → ℕ
page_size limit rem = if (limit == 0) || ltb rem limit then rem else limit

entry_count-page_size :
    (limit rem : ℕ) → entry_count (pos limit) (pos rem) ≡ pos (page_size limit rem)
unfolding entry_count
entry_count-page_size limit rem = ground arith

next_token_of-pos : (j n : ℕ) → next_token_of j (pos n) ≡ (if ltb j n then show j else "")
unfolding next_token_of
next_token_of-pos j n = ap (λ b. if b then show j else "") (same_test j n)
  where
    same_test : (a b : ℕ) → ltb_ℤ (pos a) (pos b) ≡ ltb a b
    same_test a b = ground arith

page_from-fits :
    (snaps : List CsiSnapshot) (j n : ℕ) (s : Globals)
    → length snaps < 2 ^ 31
    → j + n ≤ length snaps
    → page_from snaps (pos j) (pos n) s ≡ (
      ok (record {
        entries = take n (drop j snaps);
        next_token = if ltb (j + n) (length snaps) then show (j + n) else "";
      }),
      s,
    )
unfolding page_from maybe pure
page_from-fits snaps j n s small fits =
    rw
      (
        entries_from-take n j snaps fits,
        int32-small (length snaps) small,
        next_token_of-pos (j + n) (length snaps),
      )
      refl

-- For fewer than 2^31 snapshots, a starting token j of at most their number, and a limit that is not
-- negative, a page of ListSnapshots is the snapshots from the j-th on, as many as the limit, or all
-- for a limit of 0; its next token is the number of the first snapshot behind it, if there is one.
pub list_page-fits :
    (snaps : List CsiSnapshot) (req : ListSnapshotsRequest) (j limit : ℕ) (s : Globals)
    → length snaps < 2 ^ 31
    → starting_token_of req.starting_token ≡ some (pos j)
    → j ≤ length snaps
    → req.max_entries ≡ pos limit
    → list_page snaps req s ≡ (
      ok (record {
        entries = take (page_size limit (length snaps - j)) (drop j snaps);
        next_token =
            if ltb (j + page_size limit (length snaps - j)) (length snaps)
            then show (j + page_size limit (length snaps - j))
            else "";
      }),
      s,
    )
unfolding list_page
list_page-fits snaps req j limit s small starts below limited =
    maybe-some _ _ _ s (pos j) starts
    ∙ require-bind _ _ _ s (rw (int32-small (length snaps) small) (ground arith))
    ∙ rw
        (
          int32-small (length snaps) small,
          sub_int32-small (length snaps) j small below,
          limited,
          entry_count-page_size limit (length snaps - j),
        )
        (page_from-fits snaps j (page_size limit (length snaps - j)) s small (ground arith))

page_from-crashes :
    (snaps : List CsiSnapshot) (k : ℕ) (count : ℤ) (s : Globals)
    → eq_ℤ count (pos 0) ≡ false
    → page_from snaps (negsuc k) count s ≡ (panic, s)
unfolding page_from crash
page_from-crashes snaps k (pos n) s nonzero = elim (Bool-cases (n == 0)) [
  | inl none_left ↦ absurd (zero_test n none_left nonzero)
  | inr some_left ↦ rw some_left refl
]
  where
    zero_test : (m : ℕ) → (m == 0) ≡ true → eq_ℤ (pos m) (pos 0) ≡ false → ⊥
    zero_test m a b = ground arith
page_from-crashes snaps k (negsuc n) s nonzero = refl

remaining_nonzero :
    (n k : ℕ) → n < 2 ^ 31 → k < 2 ^ 31 → eq_ℤ (sub_int32 (pos n) (negsuc k)) (pos 0) ≡ false
unfolding sub_int32 int32
remaining_nonzero n k small token = ground arith

-- For fewer than 2^31 snapshots, a starting token that is below 0 as an int32, and no limit,
-- a page of them is a panic.
pub list_page-crashes :
    (snaps : List CsiSnapshot) (req : ListSnapshotsRequest) (k : ℕ) (s : Globals)
    → length snaps < 2 ^ 31
    → k < 2 ^ 31
    → starting_token_of req.starting_token ≡ some (negsuc k)
    → req.max_entries ≡ pos 0
    → list_page snaps req s ≡ (panic, s)
unfolding list_page entry_count
list_page-crashes snaps req k s small token starts limited =
    maybe-some _ _ _ s (negsuc k) starts
    ∙ require-bind _ _ _ s (rw (int32-small (length snaps) small) (ground arith))
    ∙ rw (int32-small (length snaps) small, limited)
        (page_from-crashes snaps k (sub_int32 (pos (length snaps)) (negsuc k)) s
          (remaining_nonzero (length snaps) k small token))
