-- ===== src/Controller/Bounds.antt =====
-- How long a page of ListSnapshots is.
use csi_driver_flexblock.Env.{Globals}
use csi_driver_flexblock.Go.Gives.{
  Gives-require, Gives-raise, Gives-if, Gives-pure, Gives-maybe, Gives,
}
use csi_driver_flexblock.Go.{ok, crash}
use csi_driver_flexblock.Csi.{ListSnapshotsRequest, ListSnapshotsResponse, CsiSnapshot}
use csi_driver_flexblock.Prelude.Int.{negsuc, pos, ℤ}
use csi_driver_flexblock.Controller.Snapshots.{
  int32, sub_int32, starting_token_of, list_page, page_from, entry_count, entries_from,
}
use csi_driver_flexblock.Prelude.{
  some_inj, ◌∙◌, sym, ap, Bool-cases, if◌then◌else◌, none, some, inr, zero, Option, false, suc,
  ◌==◌, arith, length, inl, ◌⊎◌, some, ◌+◌, ◌≤◌, ◌<◌, get_elem?, ◌≡◌, ℕ, List, ◌∷◌, [], refl,
}

get_elem?-inside {ℓ} :
    {A : Type ℓ} (xs : List A) (j : ℕ) (x : A) → get_elem? xs j ≡ some x → j < length xs
get_elem?-inside [] j x h = cc
get_elem?-inside (y ∷ ys) zero x h = omega arith
get_elem?-inside (y ∷ ys) (suc j) x h = omega (arith, get_elem?-inside ys j x h)

abbrev Reached : ℕ → ℕ → ℕ → Type 0
Reached n j len = (n ≡ 0) ⊎ (j + n ≤ len)

Reached-more : (n j len : ℕ) → j < len → Reached n (j + 1) len → Reached (suc n) j len
Reached-more n j len inside (inl none_left) = inr (omega (arith, inside, none_left))
Reached-more n j len inside (inr more) = inr (omega (arith, more))

within : (n j len : ℕ) → Reached n j len → n ≤ len
within n j len (inl none_left) = omega (arith, none_left)
within n j len (inr more) = omega (arith, more)

entries_from_inv :
    (n j : ℕ) (snaps es : List CsiSnapshot)
    → entries_from n j snaps ≡ some es
    → (length es ≡ n) × Reached n j (length snaps)
unfolding entries_from
entries_from_inv zero j snaps [] h = (refl, inl refl)
entries_from_inv zero j snaps (e ∷ es) h = absurd (no_entry e es h)
  where
    no_entry : (e : CsiSnapshot) (es : List CsiSnapshot) → some [] ≡ some (e ∷ es) → ⊥
    no_entry e es h = cc
entries_from_inv (suc n) j snaps es h =
    step (λ rest e. entries_from_inv n (j + 1) snaps rest e) (get_elem? snaps j)
      (entries_from n (j + 1) snaps) es refl refl h
  where
    step :
        ((rest : List CsiSnapshot)
          → entries_from n (j + 1) snaps ≡ some rest
          → (length rest ≡ n) × Reached n (j + 1) (length snaps))
        → (o : Option CsiSnapshot) (rest : Option (List CsiSnapshot)) (es : List CsiSnapshot)
        → get_elem? snaps j ≡ o
        → entries_from n (j + 1) snaps ≡ rest
        → elim o [
          | none ↦ none
          | some snap ↦ elim rest [ none ↦ none | some es ↦ some (snap ∷ es) ]
        ]
          ≡ some es
        → (length es ≡ suc n) × Reached (suc n) j (length snaps)
    step known none rest es e1 e2 h = cc
    step known (some x) none es e1 e2 h = cc
    step known (some x) (some rest) es e1 e2 h =
        let (len, reached) = known rest e2 in
        (
          ap length (sym (some_inj _ _ h)) ∙ ap suc len,
          Reached-more n j (length snaps) (get_elem?-inside snaps j x e1) reached,
        )

entry_count-limit :
    (limit n : ℕ) (rem : ℤ) → entry_count (pos limit) rem ≡ pos n → (limit == 0) ≡ false → n ≤ limit
unfolding entry_count
entry_count-limit limit n (pos r) h nonzero = ground arith
entry_count-limit limit n (negsuc r) h nonzero = ground arith

module _ (snaps : List CsiSnapshot) (limit : ℕ) where
  abbrev most : ℕ
  most = if limit == 0 then length snaps else limit

  abbrev IsBounded : ListSnapshotsResponse → Type 0
  IsBounded page = (length page.entries ≤ length snaps) × (length page.entries ≤ most)

  below_most : (n : ℕ) → n ≤ length snaps → ((limit == 0) ≡ false → n ≤ limit) → n ≤ most
  below_most n all some_limit = elim (Bool-cases (limit == 0)) [
    | inl unlimited ↦ rw unlimited all
    | inr limited ↦ rw limited (some_limit limited)
  ]

  Gives-page_from :
      (start count : ℤ)
      → ((n : ℕ) → count ≡ pos n → (limit == 0) ≡ false → n ≤ limit)
      → Gives IsBounded (page_from snaps start count)
  unfolding page_from crash
  Gives-page_from (pos j) (pos n) limits =
      Gives-maybe (entries_from n j snaps) _ _ (record { at = λ s b h. cc })
        λ es given.
          let (len, reached) = entries_from_inv n j snaps es given in
          let small = within n j (length snaps) reached in
          Gives-pure _
            (omega (arith, len, small), omega (arith, len, below_most n small (limits n refl)))
  Gives-page_from (pos j) (negsuc n) limits = record { at = λ s b h. cc }
  Gives-page_from (negsuc j) (pos n) limits =
      Gives-if (n == 0) _ _ (λ _. Gives-pure _ (omega arith, omega arith))
        λ _. record { at = λ s b h. cc }
  Gives-page_from (negsuc j) (negsuc n) limits = record { at = λ s b h. cc }

-- Whatever the token, a page of ListSnapshots that is answered, for a limit that is not negative, has at most as
-- many entries as there are snapshots, and at most as many as a limit other than 0.
pub list_page-bounds :
    (snaps : List CsiSnapshot) (req : ListSnapshotsRequest) (limit : ℕ)
    (page : ListSnapshotsResponse) (s : Globals)
    → req.max_entries ≡ pos limit
    → (list_page snaps req s).0 ≡ ok page
    → (length page.entries ≤ length snaps)
      × (length page.entries ≤ (if limit == 0 then length snaps else limit))
unfolding list_page
list_page-bounds snaps req limit page s limited answered =
    (Gives-maybe (starting_token_of req.starting_token) _ _ (Gives-raise _) λ start _.
        Gives-require _ _ _ λ _. Gives-page_from snaps limit start _ λ n counted nonzero.
          entry_count-limit limit n _
            (ap (λ m. entry_count m (sub_int32 (int32 (length snaps)) start)) (sym limited)
              ∙ counted)
            nonzero).at
      s page answered
