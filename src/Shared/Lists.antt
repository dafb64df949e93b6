-- ===== src/Shared/Lists.antt =====
-- Lists of numbers that stand for sets of slots, and lists with native indices.
use Prim.Native.Nat.{ℕ, zero, suc, ◌+◌, ◌≤◌, ◌<◌}
use mathlib.Core.Path.{◌≡◌, refl, ap}
use mathlib.Core.Bool.{Bool, true, false, ◌||◌}
use mathlib.Core.List.{List, [], ◌∷◌, ◌++◌}
use native.Mathlib.Omega.{arith}
use mathlib.Core.Logic.{inl, inr}
use dsm_db.Shared.Tests.{◌==◌, if◌then◌else◌, Bool-cases}

module _ {ℓ} {A : Type ℓ} where
  abbrev pub length : List A → ℕ
  length [] = 0
  length (x ∷ xs) = suc (length xs)

  pub length-append : (xs ys : List A) → length (xs ++ ys) ≡ length xs + length ys
  length-append [] ys = omega arith
  length-append (x ∷ xs) ys = omega (arith, length-append xs ys)

module _ {ℓ} {A : Type ℓ} where
  abbrev pub take : ℕ → List A → List A
  take zero xs = []
  take (suc n) [] = []
  take (suc n) (x ∷ xs) = x ∷ take n xs

  abbrev pub drop : ℕ → List A → List A
  drop zero xs = xs
  drop (suc n) [] = []
  drop (suc n) (x ∷ xs) = drop n xs

  pub drop_all : (xs ys : List A) → drop (length xs) (xs ++ ys) ≡ ys
  drop_all [] ys = refl
  drop_all (x ∷ xs) ys = drop_all xs ys

  pub take_all : (xs ys : List A) → take (length xs) (xs ++ ys) ≡ xs
  take_all [] ys = refl
  take_all (x ∷ xs) ys = ap (λ t. x ∷ t) (take_all xs ys)

  pub append_assoc : (xs ys zs : List A) → (xs ++ ys) ++ zs ≡ xs ++ (ys ++ zs)
  append_assoc [] ys zs = refl
  append_assoc (x ∷ xs) ys zs = ap (λ t. x ∷ t) (append_assoc xs ys zs)

  pub append_nil : (xs : List A) → xs ++ [] ≡ xs
  append_nil [] = refl
  append_nil (x ∷ xs) = ap (λ t. x ∷ t) (append_nil xs)

-- Membership of a number, as a test.
abbrev pub has : ℕ → List ℕ → Bool
has a [] = false
has a (x ∷ xs) = (a == x) || has a xs

-- No number twice, and each below the bound.
abbrev pub IsDistinct : List ℕ → Type 0
IsDistinct [] = Unit
IsDistinct (x ∷ xs) = (has x xs ≡ false) × IsDistinct xs

abbrev pub AllBelow : ℕ → List ℕ → Type 0
AllBelow n [] = Unit
AllBelow n (x ∷ xs) = (x < n) × AllBelow n xs

pub has-AllBelow : (n a : ℕ) (xs : List ℕ) → AllBelow n xs → has a xs ≡ true → a < n
has-AllBelow n a [] h m = absurd (ground arith)
has-AllBelow n a (x ∷ xs) h m = ground (arith, has-AllBelow n a xs h.1)

-- `xs` without `a`.
remove : ℕ → List ℕ → List ℕ
remove a [] = []
remove a (x ∷ xs) = if a == x then xs else x ∷ remove a xs

has-remove : (a b : ℕ) (xs : List ℕ) → has b xs ≡ false → has b (remove a xs) ≡ false
unfolding remove
has-remove a b [] h = refl
has-remove a b (x ∷ xs) h = ground (arith, has-remove a b xs)

IsDistinct-remove : (a : ℕ) (xs : List ℕ) → IsDistinct xs → IsDistinct (remove a xs)
unfolding remove
IsDistinct-remove a [] d = tt
IsDistinct-remove a (x ∷ xs) d = elim (Bool-cases (a == x)) [
  | inl e ↦ rw e d.1
  | inr e ↦ rw e (has-remove a x xs d.0, IsDistinct-remove a xs d.1)
]

length-remove : (a : ℕ) (xs : List ℕ) → has a xs ≡ true → length (remove a xs) + 1 ≡ length xs
unfolding remove
length-remove a [] h = absurd (ground arith)
length-remove a (x ∷ xs) h = ground (arith, length-remove a xs)

AllBelow-without : (n : ℕ) (xs : List ℕ) → AllBelow (suc n) xs → has n xs ≡ false → AllBelow n xs
AllBelow-without n [] b h = tt
AllBelow-without n (x ∷ xs) b h = (ground arith, AllBelow-without n xs b.1 (ground arith))

-- A list below `n + 1` with no number twice is below `n` without `n`.
AllBelow-remove :
    (n : ℕ) (xs : List ℕ) → AllBelow (suc n) xs → IsDistinct xs → AllBelow n (remove n xs)
unfolding remove
AllBelow-remove n [] b d = tt
AllBelow-remove n (x ∷ xs) b d = elim (Bool-cases (n == x)) [
  | inl e ↦ rw e (AllBelow-without n xs b.1 (let e' : n ≡ x = ground arith in rw e' d.0))
  | inr e ↦ rw e (ground arith, AllBelow-remove n xs b.1 d.1)
]

-- Numbers below `n`, none twice, are at most `n` many.
length-le : (n : ℕ) (xs : List ℕ) → AllBelow n xs → IsDistinct xs → length xs ≤ n
length-le zero [] b d = omega arith
length-le zero (x ∷ xs) b d = absurd (omega arith)
length-le (suc n) xs b d = elim (Bool-cases (has n xs)) [
  | inl e ↦ omega (
    arith,
    length-remove n xs e,
    length-le n (remove n xs) (AllBelow-remove n xs b d) (IsDistinct-remove n xs d),
  )
  | inr e ↦ omega (arith, length-le n xs (AllBelow-without n xs b e) d)
]

-- A number below `n` that is not among them leaves room for one more.
pub length-lt :
    (n i : ℕ) (xs : List ℕ)
    → AllBelow n xs
    → IsDistinct xs
    → i < n
    → has i xs ≡ false
    → length xs < n
length-lt n i xs b d h out = length-le n (i ∷ xs) (h, b) (out, d)

-- The numbers k, k + 1, ..., n of them.
abbrev pub range_from : ℕ → ℕ → List ℕ
range_from k zero = []
range_from k (suc n) = k ∷ range_from (suc k) n

pub length-range_from : (k n : ℕ) → length (range_from k n) ≡ n
length-range_from k zero = refl
length-range_from k (suc n) = omega (arith, length-range_from (suc k) n)

pub AllBelow-range_from : (k n m : ℕ) → k + n ≤ m → AllBelow m (range_from k n)
AllBelow-range_from k zero m h = tt
AllBelow-range_from k (suc n) m h = (omega arith, AllBelow-range_from (suc k) n m (omega arith))

pub has-range_from_below : (i k n : ℕ) → i < k → has i (range_from k n) ≡ false
has-range_from_below i k zero h = refl
has-range_from_below i k (suc n) h = ground (arith, has-range_from_below i (suc k) n)

pub IsDistinct-range_from : (k n : ℕ) → IsDistinct (range_from k n)
IsDistinct-range_from k zero = tt
IsDistinct-range_from k (suc n) =
    (has-range_from_below k (suc k) n (omega arith), IsDistinct-range_from (suc k) n)

pub has-range_from : (i k n : ℕ) → k ≤ i → i < k + n → has i (range_from k n) ≡ true
has-range_from i k zero h l = absurd (omega arith)
has-range_from i k (suc n) h l = ground (arith, has-range_from i (suc k) n)

-- The end of a list.
pub IsDistinct-tail : (xs ys : List ℕ) → IsDistinct (xs ++ ys) → IsDistinct ys
IsDistinct-tail [] ys d = d
IsDistinct-tail (x ∷ xs) ys d = IsDistinct-tail xs ys d.1

pub AllBelow-tail : (n : ℕ) (xs ys : List ℕ) → AllBelow n (xs ++ ys) → AllBelow n ys
AllBelow-tail n [] ys b = b
AllBelow-tail n (x ∷ xs) ys b = AllBelow-tail n xs ys b.1

pub has-tail : (a : ℕ) (xs ys : List ℕ) → has a (xs ++ ys) ≡ false → has a ys ≡ false
has-tail a [] ys h = h
has-tail a (x ∷ xs) ys h = has-tail a xs ys (ground arith)
