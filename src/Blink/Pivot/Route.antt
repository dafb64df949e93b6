-- ===== src/Blink/Pivot/Route.antt =====
-- src/index/b_page.c: `blink_pivot_scan` leads to the child whose range holds the key.
use dsm_db.Shared.{
  ℕ, zero, suc, ◌+◌, ◌-◌, ◌/◌, ◌≤◌, ◌<◌, ◌≡◌, ◌⊎◌, inl, inr, refl, ap, false, Option, some, none,
  ltb, leb, ◌==◌, ◌&&◌, arith, Bool-cases,
}
use dsm_db.Blink.Search.{IsSorted}
use dsm_db.Blink.Pivot.{Pivot, key_at, cpid_at, route, child_index, blink_pivot_scan}

-- The keys before `i` are below the key that is looked for, and the others are not.
pub record Routes (n : ℕ) (keys : ℕ → ℕ) (key i : ℕ) : Type 0 where
  pub inside : i ≤ n
  pub below : (j : ℕ) → j < i → keys j < key
  pub above : (j : ℕ) → i ≤ j → j < n → key ≤ keys j

abbrev pub Routed : ℕ → (ℕ → ℕ) → ℕ → Option ℕ → Type 0
Routed n keys key none = ⊥
Routed n keys key (some i) = Routes n keys key i

abbrev pub IsSortedPivot : Pivot → Type 0
IsSortedPivot p = IsSorted p.records (key_at p)

-- The loop: the key is above the lower bound's key and not above the upper one's.
route-Routed :
    (n : ℕ) (keys : ℕ → ℕ) (key f lower upper : ℕ)
    → IsSorted n keys
    → upper - lower ≤ f
    → lower < upper
    → upper ≤ n
    → keys lower < key
    → ((upper < n) × (key ≤ keys upper)) ⊎ ((upper ≡ n) × (key ≤ keys (n - 1)))
    → Routed n keys key (route keys key f lower upper)
unfolding route
route-Routed n keys key zero lower upper s h lt le low high = absurd (omega arith)
route-Routed n keys key (suc f) lower upper s h lt le low high =
    elim (Bool-cases (leb key (keys (m + 1)) && ltb (keys m) key)) [
      | inl gap ↦ rw gap (record {
        inside = omega arith;
        below = λ j hj. ground (arith, s j m);
        above = λ j p hj. ground (arith, s (m + 1) j);
      })
      | inr no_gap ↦ elim (Bool-cases (leb key (keys m))) [
        | inl left ↦
            rw (no_gap, left)
              (route-Routed n keys key f lower m s (ground arith) (ground arith) (omega arith) low
                (inl (omega arith, ground arith)))
        | inr right ↦
            rw (no_gap, right)
              (route-Routed n keys key f m upper s (ground arith) (omega arith) le (ground arith)
                high)
      ]
    ]
  where
    m : ℕ
    m = (upper + lower) / 2

child_index-Routed :
    (p : Pivot) (key : ℕ)
    → IsSortedPivot p
    → 0 < p.records
    → Routed p.records (key_at p) key (child_index p key)
unfolding child_index
child_index-Routed p key s some_there = elim (Bool-cases (leb key (key_at p 0))) [
  | inl first ↦ rw first (record {
    inside = omega arith;
    below = λ j hj. absurd (omega arith);
    above = λ j q hj. ground (arith, s 0 j);
  })
  | inr not_first ↦
      let not_empty : (p.records == 0) ≡ false = ground arith in
      elim (Bool-cases (ltb (key_at p (p.records - 1)) key)) [
        | inl last ↦
            rw (not_first, not_empty, last)
              (record {
                inside = omega arith;
                below = λ j hj. ground (arith, s j (p.records - 1));
                above = λ j q hj. absurd (omega arith);
              })
        | inr not_last ↦ elim (Bool-cases (key == key_at p (p.records - 1))) [
          | inl same ↦
              rw (not_first, not_empty, not_last, same)
                (record {
                  inside = omega arith;
                  below = λ j hj. ground (arith, s j (p.records - 1));
                  above = λ j q hj. ground (arith, s (p.records - 1) j);
                })
          | inr other ↦
              rw (not_first, not_empty, not_last, other)
                (route-Routed p.records (key_at p) key p.records 0 p.records s (omega arith)
                  some_there (omega arith) (ground arith) (inr (refl, ground arith)))
        ]
      ]
]

Routes-unique :
    (n : ℕ) (keys : ℕ → ℕ) (key i j : ℕ) → Routes n keys key i → Routes n keys key j → i ≡ j
Routes-unique n keys key i j a b =
    ground (arith, a.below j, b.above j, b.below i, a.above i, a.inside, b.inside)

index_of_route :
    (n : ℕ) (keys : ℕ → ℕ) (key i : ℕ) (r : Option ℕ)
    → Routes n keys key i
    → Routed n keys key r
    → r ≡ some i
index_of_route n keys key i none a b = absurd b
index_of_route n keys key i (some j) a b = ap some (Routes-unique n keys key j i b a)

pub route_exists :
    (p : Pivot) (key : ℕ)
    → IsSortedPivot p
    → 0 < p.records
    → (i : ℕ) × Routes p.records (key_at p) key i
route_exists p key s h = of_answer (child_index p key) (child_index-Routed p key s h)
  where
    of_answer :
        (r : Option ℕ)
        → Routed p.records (key_at p) key r
        → (i : ℕ) × Routes p.records (key_at p) key i
    of_answer none a = absurd a
    of_answer (some i) a = (i, a)

pub blink_pivot_scan_lem :
    (p : Pivot) (key i : ℕ)
    → IsSortedPivot p
    → 0 < p.records
    → Routes p.records (key_at p) key i
    → blink_pivot_scan p key ≡ some (cpid_at p i)
unfolding blink_pivot_scan
blink_pivot_scan_lem p key i s h r =
    rw (
      index_of_route p.records (key_at p) key i (child_index p key) r
        (child_index-Routed p key s h))

-- On a pivot page with a record, whose keys rise, the search of a key ends, and gives the child at
-- the index below which the keys are below it, and from which on they are not.
pub blink_pivot_scan-Routes :
    (p : Pivot) (key : ℕ)
    → IsSortedPivot p
    → 0 < p.records
    → (i : ℕ) × Routes p.records (key_at p) key i × (blink_pivot_scan p key ≡ some (cpid_at p i))
blink_pivot_scan-Routes p key s h =
    let (i, r) = route_exists p key s h in (i, r, blink_pivot_scan_lem p key i s h r)
