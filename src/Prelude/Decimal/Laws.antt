-- ===== src/Prelude/Decimal/Laws.antt =====
-- Numbers that are printed and read again.
use csi_driver_flexblock.Prelude.{
  eq_iff, some_inj, ℕ, zero, suc, ◌+◌, ◌-◌, ◌*◌, ◌/◌, ◌%◌, ◌<◌, ◌≤◌, String, ◌≡◌, refl, ap, ◌∙◌,
  Bool-cases, inl, inr, some, none, arith, ltb, leb, false, ◌&&◌, ◌=ₛ◌,
}
use Prim.Native.Char.{Char, code}
use csi_driver_flexblock.Prelude.Text.{size, ◌<>◌}
use csi_driver_flexblock.Prelude.Decimal.{digit, show_fuel, show, read_digits}

read_digits-append :
    (a b : String) (acc k : ℕ)
    → read_digits acc a ≡ some k
    → read_digits acc (a <> b) ≡ read_digits k b
unfolding read_digits ◌<>◌
read_digits-append String.[] b acc k h = ap (λ n. read_digits n b) (some_inj acc k h)
read_digits-append (String.◌∷◌ c a) b acc k h =
    elim (Bool-cases (leb 48 (code c) && leb (code c) 57)) [
      | inl is_digit ↦
          rw is_digit (read_digits-append a b (acc * 10 + (code c - 48)) k (rw is_digit at h))
      | inr other ↦ absurd (none_ne_some k (rw other at h))
    ]
  where
    none_ne_some : (n : ℕ) → none ≡ some n → ⊥
    none_ne_some n e = cc

read-digit : (d acc : ℕ) → d < 10 → read_digits acc (digit d) ≡ some (acc * 10 + d)
unfolding digit read_digits
read-digit zero acc small = refl
read-digit (suc zero) acc small = refl
read-digit (suc (suc zero)) acc small = refl
read-digit (suc (suc (suc zero))) acc small = refl
read-digit (suc (suc (suc (suc zero)))) acc small = refl
read-digit (suc (suc (suc (suc (suc zero))))) acc small = refl
read-digit (suc (suc (suc (suc (suc (suc zero)))))) acc small = refl
read-digit (suc (suc (suc (suc (suc (suc (suc zero))))))) acc small = refl
read-digit (suc (suc (suc (suc (suc (suc (suc (suc zero)))))))) acc small = refl
read-digit (suc (suc (suc (suc (suc (suc (suc (suc (suc zero))))))))) acc small = refl
read-digit (suc (suc (suc (suc (suc (suc (suc (suc (suc (suc d)))))))))) acc small =
    absurd (omega (arith, small))

digits_of : (n : ℕ) → n / 10 * 10 + n % 10 ≡ n
digits_of n = omega arith

read-show_fuel : (f n : ℕ) → n ≤ f → read_digits 0 (show_fuel f n) ≡ some n
unfolding show_fuel
read-show_fuel zero n enough = read-digit (n % 10) 0 (omega arith) ∙ ap some (omega (arith, enough))
read-show_fuel (suc f) n enough = elim (Bool-cases (ltb n 10)) [
  | inl small ↦ rw small (read-digit n 0 (ground (arith, small)) ∙ ap some (omega arith))
  | inr large ↦ rw large (
      read_digits-append (show_fuel f (n / 10)) (digit (n % 10)) 0 (n / 10)
        (read-show_fuel f (n / 10) (fewer n f enough (not_small n large)))
      ∙ read-digit (n % 10) (n / 10) (omega arith)
      ∙ ap some (digits_of n))
]
  where
    not_small : (m : ℕ) → ltb m 10 ≡ false → 10 ≤ m
    not_small m h = ground arith

    fewer : (m k : ℕ) → m ≤ suc k → 10 ≤ m → m / 10 ≤ k
    fewer m k a b = omega (arith, a, b)

-- strconv reads back what `%d` prints.
pub read-show : (n : ℕ) → read_digits 0 (show n) ≡ some n
unfolding show
read-show n = read-show_fuel n n (omega arith)

digit_nonempty : (d : ℕ) → (digit d =ₛ "") ≡ false
unfolding digit
digit_nonempty zero = refl
digit_nonempty (suc zero) = refl
digit_nonempty (suc (suc zero)) = refl
digit_nonempty (suc (suc (suc zero))) = refl
digit_nonempty (suc (suc (suc (suc zero)))) = refl
digit_nonempty (suc (suc (suc (suc (suc zero))))) = refl
digit_nonempty (suc (suc (suc (suc (suc (suc zero)))))) = refl
digit_nonempty (suc (suc (suc (suc (suc (suc (suc zero))))))) = refl
digit_nonempty (suc (suc (suc (suc (suc (suc (suc (suc zero)))))))) = refl
digit_nonempty (suc (suc (suc (suc (suc (suc (suc (suc (suc d))))))))) = refl

cons_nonempty : (c : Char) (s : String) → (String.◌∷◌ c s =ₛ "") ≡ false
cons_nonempty c s = elim (Bool-cases (String.◌∷◌ c s =ₛ "")) [
  | inl same ↦ absurd (unfold size in omega (arith, ap size ((eq_iff _ _).0 same)))
  | inr differ ↦ differ
]

append_nonempty : (a b : String) → (b =ₛ "") ≡ false → (a <> b =ₛ "") ≡ false
unfolding ◌<>◌
append_nonempty String.[] b h = h
append_nonempty (String.◌∷◌ c a) b h = cons_nonempty c (a <> b)

show_fuel_nonempty : (f n : ℕ) → (show_fuel f n =ₛ "") ≡ false
unfolding show_fuel
show_fuel_nonempty zero n = digit_nonempty (n % 10)
show_fuel_nonempty (suc f) n = elim (Bool-cases (ltb n 10)) [
  | inl small ↦ rw small (digit_nonempty n)
  | inr large ↦
      rw large (append_nonempty (show_fuel f (n / 10)) (digit (n % 10)) (digit_nonempty (n % 10)))
]

pub show_nonempty : (n : ℕ) → (show n =ₛ "") ≡ false
unfolding show
show_nonempty n = show_fuel_nonempty n n
