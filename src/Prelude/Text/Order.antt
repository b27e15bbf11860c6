-- ===== src/Prelude/Text/Order.antt =====
-- The order of texts by their characters.
use Prim.Native.Nat.{ℕ, Ordering, compare as compare_ℕ}
use Prim.Native.Char.{Char, code}
use Prim.Native.String.compare
use Prim.Native.String.{String, compare, then as then_by}
use mathlib.Core.Path.{◌≡◌, refl, sym, ap, ap₂, ◌∙◌}
use mathlib.Core.Bool.{Bool, true, false}
use mathlib.Core.Logic.{inl, inr}
use native.Mathlib.Omega.{arith}
use text.Mathlib.TextEquality.{codes_equal}
use csi_driver_flexblock.Prelude.Tests.{Bool-cases, ltb, ◌==◌, if◌then◌else◌}

abbrev not_gt : Ordering → Bool
not_gt Ordering.gt = false
not_gt _ = true

-- the order of sort.Strings
abbrev pub not_above : String → String → Bool
not_above a b = not_gt (compare a b)

-- the same order, by recursion
unfoldable le_chars : String → String → Bool
le_chars String.[] t = true
le_chars (String.◌∷◌ c s) String.[] = false
le_chars (String.◌∷◌ c s) (String.◌∷◌ d t) =
    let rest = le_chars s t in if code c == code d then rest else ltb (code c) (code d)

not_gt-then :
    (m n : ℕ) (r : Ordering)
    → not_gt (then_by (compare_ℕ m n) r) ≡ (if m == n then not_gt r else ltb m n)
not_gt-then m n r = by_order (compare_ℕ m n)
  where
    by_order :
        (o : Ordering)
        → not_gt (then_by o r) ≡ (
            if (elim o [ Ordering.eq ↦ true | _ ↦ false ])
            then not_gt r
            else (elim o [ Ordering.lt ↦ true | _ ↦ false ]))
    by_order Ordering.lt = refl
    by_order Ordering.eq = refl
    by_order Ordering.gt = refl

not_above-le_chars : (s t : String) → not_above s t ≡ le_chars s t
unfolding le_chars
not_above-le_chars String.[] String.[] = ap not_gt compare.nil-nil
not_above-le_chars String.[] (String.◌∷◌ d t) = ap not_gt (compare.nil-cons d t)
not_above-le_chars (String.◌∷◌ c s) String.[] = ap not_gt (compare.cons-nil c s)
not_above-le_chars (String.◌∷◌ c s) (String.◌∷◌ d t) =
    ap not_gt (compare.cons-cons c d s t)
    ∙ not_gt-then (code c) (code d) (compare s t)
    ∙ ap (λ b. if code c == code d then b else ltb (code c) (code d)) (not_above-le_chars s t)

le_chars-total : (s t : String) → le_chars s t ≡ false → le_chars t s ≡ true
unfolding le_chars
le_chars-total String.[] t h = cc
le_chars-total (String.◌∷◌ c s) String.[] h = refl
le_chars-total (String.◌∷◌ c s) (String.◌∷◌ d t) h = ground (arith, le_chars-total s t)

le_chars_trans : (s t u : String) → le_chars s t ≡ true → le_chars t u ≡ true → le_chars s u ≡ true
unfolding le_chars
le_chars_trans String.[] t u h k = refl
le_chars_trans (String.◌∷◌ c s) String.[] u h k = cc
le_chars_trans (String.◌∷◌ c s) (String.◌∷◌ d t) String.[] h k = cc
le_chars_trans (String.◌∷◌ c s) (String.◌∷◌ d t) (String.◌∷◌ e u) h k =
    ground (arith, le_chars_trans s t u)

same_code : (c d : Char) → (code c == code d) ≡ true → c ≡ d
same_code c d h = codes_equal c d (by_order (compare_ℕ (code c) (code d)) h)
  where
    by_order : (o : Ordering) → (elim o [ Ordering.eq ↦ true | _ ↦ false ]) ≡ true → o ≡ Ordering.eq
    by_order Ordering.eq h = refl
    by_order Ordering.lt h = cc
    by_order Ordering.gt h = cc

le_chars-antisym : (s t : String) → le_chars s t ≡ true → le_chars t s ≡ true → s ≡ t
unfolding le_chars
le_chars-antisym String.[] String.[] h k = refl
le_chars-antisym String.[] (String.◌∷◌ d t) h k = cc
le_chars-antisym (String.◌∷◌ c s) String.[] h k = cc
le_chars-antisym (String.◌∷◌ c s) (String.◌∷◌ d t) h k = elim (Bool-cases (code c == code d)) [
  | inl same ↦
      let heads = same_code c d same in
      let tails =
        le_chars-antisym s t (tail_test (code c) (code d) _ same h)
          (tail_test (code d) (code c) _ (flip (code c) (code d) same) k) in
      ap₂ String.◌∷◌ heads tails
  | inr differ ↦ absurd (not_both (code c) (code d) _ _ differ h k)
]
  where
    tail_test :
        (m n : ℕ) (b : Bool) → (m == n) ≡ true → (if m == n then b else ltb m n) ≡ true → b ≡ true
    tail_test m n b same h = ground arith

    flip : (m n : ℕ) → (m == n) ≡ true → (n == m) ≡ true
    flip m n h = ground arith

    not_both :
        (m n : ℕ) (a b : Bool)
        → (m == n) ≡ false
        → (if m == n then a else ltb m n) ≡ true
        → (if n == m then b else ltb n m) ≡ true
        → ⊥
    not_both m n a b differ h k = ground arith

pub not_above-total : (s t : String) → not_above s t ≡ false → not_above t s ≡ true
not_above-total s t h =
    not_above-le_chars t s ∙ le_chars-total s t (sym (not_above-le_chars s t) ∙ h)

pub not_above_trans :
    (s t u : String) → not_above s t ≡ true → not_above t u ≡ true → not_above s u ≡ true
not_above_trans s t u h k =
    not_above-le_chars s u
    ∙ le_chars_trans s t u (sym (not_above-le_chars s t) ∙ h) (sym (not_above-le_chars t u) ∙ k)

pub not_above-antisym : (s t : String) → not_above s t ≡ true → not_above t s ≡ true → s ≡ t
not_above-antisym s t h k =
    le_chars-antisym s t (sym (not_above-le_chars s t) ∙ h) (sym (not_above-le_chars t s) ∙ k)
