-- ===== src/Blink/Search.antt =====
-- src/index/b_page.c: the binary search ends, and finds the key or its place.
use dsm_db.Shared.{
  ℕ, zero, suc, ◌+◌, ◌-◌, ◌/◌, ◌≤◌, ◌<◌, ◌≡◌, ◌≢◌, ◌⊎◌, inl, inr, refl, ltb, ◌==◌, ◌&&◌, arith,
  Bool-cases,
}
use dsm_db.Blink.{Probe, at, between, diverged, probe}

-- The first `n` keys rise.
abbrev pub IsSorted : ℕ → (ℕ → ℕ) → Type 0
IsSorted n keys = (i j : ℕ) → i < j → j < n → keys i < keys j

-- What is known of the key while the bounds are `lower` and `upper`.
pub record Brackets (n : ℕ) (keys : ℕ → ℕ) (key lower upper : ℕ) : Type 0 where
  pub ordered : lower < upper
  pub inside : upper ≤ n
  pub above_lower : keys lower ≤ key
  pub below_upper : ((upper < n) × (key < keys upper)) ⊎ ((upper ≡ n) × (key ≤ keys (n - 1)))

-- What the end of a search says.
abbrev pub Locates : ℕ → (ℕ → ℕ) → ℕ → Probe → Type 0
Locates n keys key (at i) = (i < n) × (keys i ≡ key)
Locates n keys key (between i) = (i + 1 < n) × (keys i < key) × (key < keys (i + 1))
Locates n keys key diverged = ⊥

module _ (n : ℕ) (keys : ℕ → ℕ) (key lower upper : ℕ) (b : Brackets n keys key lower upper) where
  abbrev middle : ℕ
  middle = (upper + lower) / 2

  middle-lt : middle < upper
  middle-lt = omega (arith, b.ordered)

  -- The bound that a key above the middle, or one below it with no gap there, allows.
  Brackets-above : key < keys middle → Brackets n keys key lower middle
  Brackets-above above = record {
    ordered = ground (arith, b.ordered, b.above_lower);
    inside = omega (arith, middle-lt, b.inside);
    above_lower = b.above_lower;
    below_upper = inl (omega (arith, middle-lt, b.inside), above);
  }

  narrow : keys middle < key → ¬ (key < keys (middle + 1)) → upper ≢ middle + 1
  narrow below no_gap e = ground (arith, b.below_upper, b.inside)

  gap_inside : keys middle < key → middle + 1 < n
  gap_inside below = ground (arith, middle-lt, b.below_upper, b.inside)

  Brackets-below :
      keys middle < key → ¬ (key < keys (middle + 1)) → Brackets n keys key middle upper
  Brackets-below below no_gap = record {
    ordered = middle-lt;
    inside = b.inside;
    above_lower = omega arith;
    below_upper = b.below_upper;
  }

-- With fuel for the width of the range the search ends, and says the truth.
pub probe-Locates :
    (n : ℕ) (keys : ℕ → ℕ) (key f lower upper : ℕ)
    → upper - lower ≤ f
    → Brackets n keys key lower upper
    → Locates n keys key (probe keys key f lower upper)
unfolding probe
probe-Locates n keys key zero lower upper h b = absurd (omega (arith, b.ordered))
probe-Locates n keys key (suc f) lower upper h b = elim (Bool-cases (keys m == key)) [
  | inl found ↦ rw found (omega (arith, b.ordered, b.inside), ground arith)
  | inr other ↦ elim (Bool-cases (ltb key (keys (m + 1)) && ltb (keys m) key)) [
    | inl gap ↦
        rw (other, gap)
          (gap_inside n keys key lower upper b (ground arith), ground arith, ground arith)
    | inr no_gap ↦ elim (Bool-cases (ltb key (keys m))) [
      | inl above ↦
          rw (other, no_gap, above)
            (probe-Locates n keys key f lower m (omega (arith, b.ordered))
              (Brackets-above n keys key lower upper b (ground arith)))
      | inr below ↦
          let less : keys m < key = ground arith in
          let closed : ¬ (key < keys (m + 1)) = λ g. ground arith in
          let wide = narrow n keys key lower upper b less closed in
          rw (other, no_gap, below)
            (probe-Locates n keys key f m upper (omega (arith, b.ordered))
              (Brackets-below n keys key lower upper b less closed))
    ]
  ]
]
  where
    m : ℕ
    m = (upper + lower) / 2

-- The search of a page of sorted keys, from both ends, with a key that lies within them.
pub probe_whole :
    (n : ℕ) (keys : ℕ → ℕ) (key : ℕ)
    → 0 < n
    → keys 0 ≤ key
    → key ≤ keys (n - 1)
    → Locates n keys key (probe keys key n 0 n)
probe_whole n keys key h low high = probe-Locates n keys key n 0 n (omega arith) (record {
  ordered = h;
  inside = omega arith;
  above_lower = low;
  below_upper = inr (refl, high);
})

-- A key in a gap, or outside of the range, is none of the keys.
pub absent_of_between :
    (n i j key : ℕ) (keys : ℕ → ℕ)
    → IsSorted n keys
    → keys i < key
    → key < keys (i + 1)
    → i + 1 < n
    → j < n
    → keys j ≢ key
absent_of_between n i j key keys s low high h hj e = ground (arith, s j i, s (i + 1) j)

pub absent_of_below :
    (n j key : ℕ) (keys : ℕ → ℕ) → IsSorted n keys → key < keys 0 → j < n → keys j ≢ key
absent_of_below n j key keys s low hj e = ground (arith, s 0 j)

pub absent_of_above :
    (n j key : ℕ) (keys : ℕ → ℕ) → IsSorted n keys → keys (n - 1) < key → j < n → keys j ≢ key
absent_of_above n j key keys s high hj e = ground (arith, s j (n - 1))
