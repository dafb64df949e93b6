-- ===== src/Protocol/Numbers.antt =====
-- src/cmd/cmd.c, client/db_client.c: the number that `__to_uint32` reads, and the number of a command
-- that there is not.
use dsm_db.Shared.{
  ℕ, zero, suc, ◌+◌, ◌-◌, ◌*◌, ◌%◌, ◌^◌, ◌≤◌, ◌<◌, ◌≡◌, refl, ap, ◌∙◌, true, false, ◌==◌, some,
  List, [], ◌∷◌, ◌++◌, length, arith,
}
use native.Mathlib.Nat.{add-mul, mul_assoc, pow-succ'}
use dsm_db.Shared.Memory.{Bytes}
use dsm_db.Hash.{char_value}
use dsm_db.Protocol.{Spells}
use dsm_db.Protocol.Spells.{Spells-at}
use dsm_db.Protocol.Server.{uint32_items, to_uint32}

abbrev pub AllDigits : List ℕ → Type 0
AllDigits [] = Unit
AllDigits (c ∷ w) = ((48 ≤ c) × (c ≤ 57)) × AllDigits w

-- The value of a text of digits: each digit times a power of ten.
abbrev pub decimal : List ℕ → ℕ
decimal [] = 0
decimal (c ∷ w) = (c - 48) * 10 ^ length w + decimal w

-- The same, a digit after the other.
digits_from : ℕ → List ℕ → ℕ
digits_from u [] = u
digits_from u (c ∷ w) = digits_from (u * 10 + (c - 48)) w

digits_from_lem : (u : ℕ) (w : List ℕ) → digits_from u w ≡ u * 10 ^ length w + decimal w
unfolding digits_from
digits_from_lem u [] = omega arith
digits_from_lem u (c ∷ w) =
    let d = c - 48 in
    let p = 10 ^ length w in
    digits_from_lem (u * 10 + d) w
    ∙ omega
        (arith, add-mul (u * 10) d p, mul_assoc u 10 p, ap (λ q. u * q) (pow-succ' 10 (length w)))

next_digit :
    (u c : ℕ)
    → 48 ≤ c
    → c ≤ 57
    → (u % 2 ^ 32 * 10 % 2 ^ 32 + char_value c + 2 ^ 64 - 48) % 2 ^ 32
      ≡ (u * 10 + (c - 48)) % 2 ^ 32
unfolding char_value
next_digit u c low high = ground (arith, low, high)

first_digit :
    (c : ℕ) → 48 ≤ c → c ≤ 57 → (char_value c + 2 ^ 64 - 48) % 2 ^ 32 ≡ (0 * 10 + (c - 48)) % 2 ^ 32
unfolding char_value
first_digit c low high = ground (arith, low, high)

uint32_items_lem :
    (f : ℕ) (m : Bytes) (a u : ℕ) (w : List ℕ)
    → AllDigits w
    → Spells m a (w ++ (0 ∷ []))
    → length w < f
    → uint32_items f m a (u % 2 ^ 32) ≡ some (digits_from u w % 2 ^ 32)
unfolding uint32_items digits_from
uint32_items_lem zero m a u w digits s enough = absurd (omega (arith, enough))
uint32_items_lem (suc f) m a u [] digits s enough =
    let here : (m a == 0) ≡ true = ground (arith, s.0) in rw here refl
uint32_items_lem (suc f) m a u (c ∷ w) digits s enough =
    let other : (m a == 0) ≡ false = ground (arith, s.0, digits.0) in
    rw (other, s.0)
      (ap (uint32_items f m (a + 1)) (next_digit u c digits.0.0 digits.0.1)
        ∙ uint32_items_lem f m (a + 1) (u * 10 + (c - 48)) w digits.1
            (Spells-at m (suc a) (a + 1) (w ++ (0 ∷ [])) (omega arith) s.1) (omega (arith, enough)))

-- A text of digits, at least one, with a NUL behind it is read as its value in 32 bits.
pub to_uint32-decimal :
    (f : ℕ) (m : Bytes) (a : ℕ) (w : List ℕ)
    → AllDigits w
    → 0 < length w
    → Spells m a (w ++ (0 ∷ []))
    → length w ≤ f
    → to_uint32 f m a ≡ some (decimal w % 2 ^ 32)
unfolding to_uint32 digits_from
to_uint32-decimal f m a [] digits some_digit s enough = absurd (omega (arith, some_digit))
to_uint32-decimal f m a (c ∷ w) digits some_digit s enough = rw (s.0) (
    ap (uint32_items f m (a + 1)) (first_digit c digits.0.0 digits.0.1)
    ∙ uint32_items_lem f m (a + 1) (0 * 10 + (c - 48)) w digits.1
        (Spells-at m (suc a) (a + 1) (w ++ (0 ∷ [])) (omega arith) s.1) (omega (arith, enough))
    ∙ ap (λ v. some (v % 2 ^ 32)) (digits_from_lem 0 (c ∷ w) ∙ omega arith))
