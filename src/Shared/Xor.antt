-- ===== src/Shared/Xor.antt =====
-- Cancellation for `bit_xor` at every width, from the digit recursion that it stands for.
use Prim.Native.Nat.{
  ℕ, zero, suc, ◌+◌, ◌*◌, ◌/◌, ◌%◌, ◌≤◌, ◌<◌, bit_xor, differ, digits, bit_xor-bitwise,
}
use mathlib.Core.Path.{◌≡◌, refl, sym, ap, ap₂, ◌∙◌}
use native.Mathlib.Omega.{arith}

abbrev xor_digits : ℕ → ℕ → ℕ → ℕ
xor_digits n a b = digits (λ b. b) differ n a b

xor_digits_fuel : (n m a b : ℕ) → a ≤ n → a ≤ m → xor_digits n a b ≡ xor_digits m a b
xor_digits_fuel zero zero a b p q = refl
xor_digits_fuel zero (suc m) zero b p q = refl
xor_digits_fuel zero (suc m) (suc a) b p q = absurd (omega arith)
xor_digits_fuel (suc n) zero zero b p q = refl
xor_digits_fuel (suc n) zero (suc a) b p q = absurd (omega arith)
xor_digits_fuel (suc n) (suc m) zero b p q = refl
xor_digits_fuel (suc n) (suc m) (suc a) b p q =
    omega (arith, xor_digits_fuel n m (suc a / 2) (b / 2) (omega arith) (omega arith))

zero-bit_xor : (b : ℕ) → bit_xor 0 b ≡ b
zero-bit_xor b = bit_xor-bitwise 0 b

bit_xor_step : (a b : ℕ) → bit_xor a b ≡ bit_xor (a / 2) (b / 2) * 2 + differ (a % 2) (b % 2)
bit_xor_step zero b = omega (arith, zero-bit_xor b, zero-bit_xor (b / 2))
bit_xor_step (suc a) b = omega (
  arith,
  bit_xor-bitwise (suc a) b,
  bit_xor-bitwise (suc a / 2) (b / 2),
  xor_digits_fuel a (suc a / 2) (suc a / 2) (b / 2) (omega arith) (omega arith),
)

differ_lt : (x y : ℕ) → x < 2 → y < 2 → differ x y < 2
differ_lt zero y p q = q
differ_lt (suc zero) zero p q = p
differ_lt (suc zero) (suc y) p q = omega arith
differ_lt (suc (suc x)) y p q = absurd (omega arith)

differ_cancel_left : (c x y : ℕ) → c < 2 → x < 2 → y < 2 → differ c x ≡ differ c y → x ≡ y
differ_cancel_left zero x y p q r e = e
differ_cancel_left (suc zero) zero zero p q r e = refl
differ_cancel_left (suc zero) zero (suc y) p q r e = absurd (omega arith)
differ_cancel_left (suc zero) (suc x) zero p q r e = absurd (omega arith)
differ_cancel_left (suc zero) (suc x) (suc y) p q r e = omega arith
differ_cancel_left (suc (suc c)) x y p q r e = absurd (omega arith)

differ_comm : (x y : ℕ) → differ x y ≡ differ y x
differ_comm zero zero = refl
differ_comm zero (suc y) = refl
differ_comm (suc x) zero = refl
differ_comm (suc x) (suc y) = differ_comm x y

bit_xor_comm_fuel : (n a b : ℕ) → a + b ≤ n → bit_xor a b ≡ bit_xor b a
bit_xor_comm_fuel n zero zero h = refl
bit_xor_comm_fuel zero (suc a) b h = absurd (omega arith)
bit_xor_comm_fuel zero zero (suc b) h = absurd (omega arith)
bit_xor_comm_fuel (suc n) a b h = omega (
  arith,
  bit_xor_step a b,
  bit_xor_step b a,
  differ_comm (a % 2) (b % 2),
  bit_xor_comm_fuel n (a / 2) (b / 2) (omega arith),
)

bit_xor_comm : (a b : ℕ) → bit_xor a b ≡ bit_xor b a
bit_xor_comm a b = bit_xor_comm_fuel (a + b) a b (omega arith)

cancel_left_fuel : (n c x y : ℕ) → c ≤ n → bit_xor c x ≡ bit_xor c y → x ≡ y
cancel_left_fuel n zero x y h e = sym (zero-bit_xor x) ∙ e ∙ zero-bit_xor y
cancel_left_fuel zero (suc c) x y h e = absurd (omega arith)
cancel_left_fuel (suc n) (suc c) x y h e = omega (
  arith,
  cancel_left_fuel n (suc c / 2) (x / 2) (y / 2) (omega arith) (omega (arith, high)),
  differ_cancel_left (suc c % 2) (x % 2) (y % 2) (omega arith) (omega arith) (omega arith)
      (omega (arith, high)),
)
  where
    high :
        (bit_xor (suc c / 2) (x / 2) ≡ bit_xor (suc c / 2) (y / 2))
        × (differ (suc c % 2) (x % 2) ≡ differ (suc c % 2) (y % 2))
    high = omega (
      arith,
      bit_xor_step (suc c) x,
      bit_xor_step (suc c) y,
      differ_lt (suc c % 2) (x % 2) (omega arith) (omega arith),
      differ_lt (suc c % 2) (y % 2) (omega arith) (omega arith),
    )

pub bit_xor_cancel_left : (c x y : ℕ) → bit_xor c x ≡ bit_xor c y → x ≡ y
bit_xor_cancel_left c x y e = cancel_left_fuel c c x y (omega arith) e

pub bit_xor_cancel_right : (x y c : ℕ) → bit_xor x c ≡ bit_xor y c → x ≡ y
bit_xor_cancel_right x y c e = bit_xor_cancel_left c x y (bit_xor_comm c x ∙ e ∙ bit_xor_comm y c)

differ_cancel : (x y : ℕ) → x < 2 → y < 2 → differ (differ x y) y ≡ x
differ_cancel zero zero p q = refl
differ_cancel zero (suc zero) p q = refl
differ_cancel zero (suc (suc y)) p q = absurd (omega arith)
differ_cancel (suc zero) zero p q = refl
differ_cancel (suc zero) (suc zero) p q = refl
differ_cancel (suc zero) (suc (suc y)) p q = absurd (omega arith)
differ_cancel (suc (suc x)) y p q = absurd (omega arith)

bit_xor_undo_fuel : (n a b : ℕ) → a + b ≤ n → bit_xor (bit_xor a b) b ≡ a
bit_xor_undo_fuel n zero zero h = refl
bit_xor_undo_fuel zero (suc a) b h = absurd (omega arith)
bit_xor_undo_fuel zero zero (suc b) h = absurd (omega arith)
bit_xor_undo_fuel (suc n) a b h =
    bit_xor_step (bit_xor a b) b
    ∙ ap₂ (λ x y. bit_xor x (b / 2) * 2 + differ y (b % 2)) halves bits
    ∙ omega (
      arith,
      bit_xor_undo_fuel n (a / 2) (b / 2) (omega arith),
      differ_cancel (a % 2) (b % 2) (omega arith) (omega arith),
    )
  where
    small : differ (a % 2) (b % 2) < 2
    small = differ_lt (a % 2) (b % 2) (omega arith) (omega arith)

    halves : bit_xor a b / 2 ≡ bit_xor (a / 2) (b / 2)
    halves = omega (arith, bit_xor_step a b, small)

    bits : bit_xor a b % 2 ≡ differ (a % 2) (b % 2)
    bits = omega (arith, bit_xor_step a b, small)

-- The exchange of two numbers by three `^=`.
pub bit_xor_exchange :
    (a b : ℕ)
    → (bit_xor b (bit_xor a b) ≡ a) × (bit_xor (bit_xor a b) (bit_xor b (bit_xor a b)) ≡ b)
bit_xor_exchange a b =
    let first : bit_xor b (bit_xor a b) ≡ a =
      bit_xor_comm b (bit_xor a b) ∙ bit_xor_undo_fuel (a + b) a b (omega arith) in
    (
      first,
      ap (bit_xor (bit_xor a b)) first
          ∙ ap (λ t. bit_xor t a) (bit_xor_comm a b)
          ∙ bit_xor_undo_fuel (b + a) b a (omega arith),
    )
