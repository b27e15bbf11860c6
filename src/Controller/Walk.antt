-- ===== src/Controller/Walk.antt =====
-- A client that follows the tokens of ListSnapshots.
use csi_driver_flexblock.Controller.Pages.{page_size, int32-small, list_page-fits}
use csi_driver_flexblock.Prelude.Decimal.Laws.{read-show, show_nonempty}
use csi_driver_flexblock.Env.{Globals}
use csi_driver_flexblock.Prelude.Decimal.{show}
use csi_driver_flexblock.Go.{ok, pure, ◌>>=◌, suspend, Go}
use csi_driver_flexblock.Prelude.Int.{pos}
use csi_driver_flexblock.Csi.{ListSnapshotsResponse, ListSnapshotsRequest, CsiSnapshot}
use csi_driver_flexblock.Controller.Snapshots.{list_page, parse_uint32, starting_token_of}
use csi_driver_flexblock.Prelude.{
  length-drop, inr, take-append-drop, inl, sym, Bool-cases, false, ◌∙◌, take, [], ap, zero, ◌-◌,
  ◌++◌, arith, ◌=ₛ◌, true, ◌≤◌, if◌then◌else◌, ltb, some, suc, ◌+◌, ◌^◌, ◌≡◌, length, ◌<◌, drop, ℕ,
  List, String, ◌∷◌, refl,
}

-- a request for a page
abbrev pub page_of : ℕ → String → ListSnapshotsRequest
page_of limit token = record {
  snapshot_id = "";
  source_volume_id = "";
  max_entries = pos limit;
  starting_token = token;
}

-- The pages of `limit` entries from a token on, until one has no next token, in at most so many calls.
unfoldable pub walk : ℕ → List CsiSnapshot → ℕ → String → Go (List CsiSnapshot)
walk zero snaps limit token = suspend
walk (suc calls) snaps limit token = do
  page ← list_page snaps (page_of limit token)
  if page.next_token =ₛ ""
      then pure page.entries
      else (do rest ← walk calls snaps limit page.next_token; pure (page.entries ++ rest))

-- A next token is read as the number that it was printed from.
starting_token_of-show : (n : ℕ) → n < 2 ^ 31 → starting_token_of (show n) ≡ some (pos n)
unfolding starting_token_of parse_uint32
starting_token_of-show n small =
    rw (show_nonempty n)
      (rw (read-show n) (rw (below_word n small) (ap some (int32-small n small))))
  where
    below_word : (m : ℕ) → m < 2 ^ 31 → ltb m (2 ^ 32) ≡ true
    below_word m h = ground arith

zero_plus : (n : ℕ) → n ≡ 0 + n
zero_plus n = omega arith

suc_plus : (j k : ℕ) → suc (j + k) ≡ suc j + k
suc_plus j k = omega arith

module _ {ℓ} {A : Type ℓ} where
  drop_nil : (n : ℕ) → drop {A = A} n [] ≡ []
  drop_nil zero = refl
  drop_nil (suc n) = refl

  drop-drop : (j k : ℕ) (xs : List A) → drop k (drop j xs) ≡ drop (j + k) xs
  drop-drop zero k xs = ap (λ n. drop n xs) (zero_plus k)
  drop-drop (suc j) k [] = drop_nil k ∙ sym (drop_nil (suc j + k))
  drop-drop (suc j) k (x ∷ xs) = drop-drop j k xs ∙ ap (λ n. drop n (x ∷ xs)) (suc_plus j k)

  take_all : (n : ℕ) (xs : List A) → length xs ≤ n → take n xs ≡ xs
  take_all zero [] h = refl
  take_all zero (x ∷ xs) h = absurd (omega (arith, h))
  take_all (suc n) [] h = refl
  take_all (suc n) (x ∷ xs) h = ap (λ ys. x ∷ ys) (take_all n xs (omega (arith, h)))

  take_and_rest : (j k : ℕ) (xs : List A) → take k (drop j xs) ++ drop (j + k) xs ≡ drop j xs
  take_and_rest j k xs =
      ap (λ ys. take k (drop j xs) ++ ys) (sym (drop-drop j k xs)) ∙ take-append-drop k (drop j xs)

module _ (snaps : List CsiSnapshot) (limit calls : ℕ) (token : String)
    (page : ListSnapshotsResponse) (s : Globals) where
  walk-last :
      list_page snaps (page_of limit token) s ≡ (ok page, s)
      → (page.next_token =ₛ "") ≡ true
      → walk (suc calls) snaps limit token s ≡ (ok page.entries, s)
  unfolding walk ◌>>=◌ pure
  walk-last answered ends = rw answered (rw ends refl)

  walk-more :
      (rest : List CsiSnapshot)
      → list_page snaps (page_of limit token) s ≡ (ok page, s)
      → (page.next_token =ₛ "") ≡ false
      → walk calls snaps limit page.next_token s ≡ (ok rest, s)
      → walk (suc calls) snaps limit token s ≡ (ok (page.entries ++ rest), s)
  unfolding walk ◌>>=◌ pure
  walk-more rest answered goes followed = rw answered (rw goes (rw followed refl))

module _ (snaps : List CsiSnapshot) (limit : ℕ) (small : length snaps < 2 ^ 31)
    (some_entries : 0 < limit) where
  abbrev next_of : ℕ → String
  next_of n = if ltb n (length snaps) then show n else ""

  abbrev page_at : ℕ → ℕ → ListSnapshotsResponse
  page_at j k = record { entries = take k (drop j snaps); next_token = next_of (j + k) }

  next_of-some : (n : ℕ) → ltb n (length snaps) ≡ true → next_of n ≡ show n
  next_of-some n more = rw more refl

  last_page : (j k : ℕ) → ltb (j + k) (length snaps) ≡ false → (next_of (j + k) =ₛ "") ≡ true
  last_page j k ends = rw ends refl

  page_reaches :
      (j : ℕ)
      → ltb (j + page_size limit (length snaps - j)) (length snaps) ≡ false
      → length snaps - j ≤ page_size limit (length snaps - j)
  page_reaches j ends = ground arith

  page_advances :
      (j : ℕ)
      → ltb (j + page_size limit (length snaps - j)) (length snaps) ≡ true
      → (j < j + page_size limit (length snaps - j))
        × (j + page_size limit (length snaps - j) < length snaps)
  page_advances j more = ground (arith, some_entries)

  walk-drop :
      (calls j : ℕ) (token : String) (s : Globals)
      → starting_token_of token ≡ some (pos j)
      → j ≤ length snaps
      → length snaps - j < calls
      → walk calls snaps limit token s ≡ (ok (drop j snaps), s)
  walk-drop zero j token s starts below enough = absurd (omega (arith, enough))
  walk-drop (suc calls) j token s starts below enough =
      let k = page_size limit (length snaps - j) in
      let answered = list_page-fits snaps (page_of limit token) j limit s small starts below refl in
      elim (Bool-cases (ltb (j + k) (length snaps))) [
        | inl more ↦
            let (advances, inside) = page_advances j more in
            walk-more snaps limit calls token (page_at j k) s (drop (j + k) snaps) answered
              (ap (λ t. t =ₛ "") (next_of-some (j + k) more) ∙ show_nonempty (j + k))
              (rw (next_of-some (j + k) more) (
                walk-drop calls (j + k) (show (j + k)) s
                  (starting_token_of-show (j + k) (omega (arith, inside, small)))
                  (omega (arith, inside)) (omega (arith, advances, inside, enough))))
            ∙ ap (λ es. (ok es, s)) (take_and_rest j k snaps)
        | inr ends ↦
            walk-last snaps limit calls token (page_at j k) s answered (last_page j k ends)
            ∙ ap (λ es. (ok es, s))
                (take_all k (drop j snaps)
                  (omega (arith, length-drop j snaps, page_reaches j ends)))
      ]

-- For fewer than 2^31 snapshots and a limit of at least 1, a client that follows the tokens from the
-- empty one, and may make more calls than there are snapshots, comes to a last page, and the
-- entries of its pages, one after the other, are all the snapshots in their order.
pub walk-all :
    (snaps : List CsiSnapshot) (limit calls : ℕ) (s : Globals)
    → length snaps < 2 ^ 31
    → 0 < limit
    → length snaps < calls
    → walk calls snaps limit "" s ≡ (ok snaps, s)
unfolding starting_token_of
walk-all snaps limit calls s small some_entries enough =
    walk-drop snaps limit small some_entries calls 0 "" s refl (omega arith) (omega (arith, enough))
