-- ===== src/Blink/Pivot/Remove.antt =====
-- src/index/b_page.c: which child a key goes to, after `blink_entry_remove_from_pivot` of a key of
-- the page.
use dsm_db.Shared.{
  ℕ, zero, suc, ◌+◌, ◌-◌, ◌≤◌, ◌<◌, ◌≡◌, inl, inr, refl, ◌∙◌, sym, ap, subst, false, Option, some,
  none, ltb, leb, ◌==◌, ◌&&◌, if◌then◌else◌, arith, Bool-cases,
}
use dsm_db.Blink.{Probe, at, between, diverged}
use dsm_db.Page.{page_id_null}
use dsm_db.Blink.Search.{IsSorted, Locates, probe_whole}
use dsm_db.Blink.Pivot.{
  Pairs, Pivot, key_at, cpid_at, set_key, set_cpid, shift_keys, drop_key, removed, remove_at,
  pivot_state, blp_accept, blink_pivot_scan, blink_entry_remove_from_pivot,
}
use dsm_db.Blink.Pivot.Route.{Routes, IsSortedPivot, blink_pivot_scan_lem}

-- One round of the loop.
abbrev moved : Pairs → ℕ → Pairs
moved a i =
    set_cpid (set_key a i (a (i + 1)).key) (i + 1) (set_key a i (a (i + 1)).key (i + 2)).cpid

key-shift_keys :
    (a : Pairs) (i n j : ℕ)
    → (shift_keys a i n j).key ≡ (if leb i j && ltb j (i + n) then (a (j + 1)).key else (a j).key)
unfolding shift_keys
key-shift_keys a i zero j = ground arith
key-shift_keys a i (suc n) j = key-shift_keys (moved a i) (i + 1) n j ∙ ground arith

cpid-shift_keys :
    (a : Pairs) (i n j : ℕ)
    → (shift_keys a i n j).cpid
      ≡ (if leb (i + 1) j && ltb j (i + 1 + n) then (a (j + 1)).cpid else (a j).cpid)
unfolding shift_keys
cpid-shift_keys a i zero j = ground arith
cpid-shift_keys a i (suc n) j = cpid-shift_keys (moved a i) (i + 1) n j ∙ ground arith

-- What is left of a page when the key at `i` goes, with the child on its right.
pub record Drops (p p' : Pivot) (i : ℕ) : Type 0 where
  pub count : p'.records + 1 ≡ p.records
  pub keys :
      (j : ℕ) → j < p'.records → key_at p' j ≡ (if ltb j i then key_at p j else key_at p (j + 1))
  pub children :
      (j : ℕ) → j ≤ p'.records → cpid_at p' j ≡ (if leb j i then cpid_at p j else cpid_at p (j + 1))

Drops-drop_key :
    (p : Pivot) (i : ℕ)
    → i < p.records
    → Drops p (record p { records = p.records - 1; pairs = drop_key p.pairs p.records i }) i
unfolding drop_key
Drops-drop_key p i h = record {
  count = omega arith;
  keys = λ j hj. ground (arith, key-shift_keys p.pairs i (p.records - 1 - i) j);
  children = λ j hj. ground (arith, cpid-shift_keys p.pairs i (p.records - 1 - i) j);
}

Drops-last :
    (p : Pivot)
    → 0 < p.records
    → Drops p
        (record p {
          records = p.records - 1;
          pairs = set_cpid (set_key p.pairs (p.records - 1) page_id_null) p.records page_id_null;
        })
        (p.records - 1)
Drops-last p h = record {
  count = omega arith;
  keys = λ j hj. ground arith;
  children = λ j hj. ground arith;
}

module _ (p p' : Pivot) (i : ℕ) (s : IsSortedPivot p) (h : i < p.records) (d : Drops p p' i) where
  sorted_after : IsSortedPivot p'
  sorted_after a b lt hb =
      ground (arith, d.keys a, d.keys b, d.count, s a b, s a (b + 1), s (a + 1) (b + 1))

  Routes-after :
      (x j : ℕ)
      → Routes p.records (key_at p) x j
      → Routes p'.records (key_at p') x (if leb j i then j else j - 1)
  Routes-after x j r = record {
    inside = ground (arith, d.count, r.inside);
    below = λ a ha. ground (arith, d.keys a, d.count, r.below a, r.below (a + 1), r.inside);
    above = λ a ha hn. ground (arith, d.keys a, d.count, r.above a, r.above (a + 1), s a (a + 1));
  }

  scan_after :
      (x j : ℕ)
      → 1 < p.records
      → Routes p.records (key_at p) x j
      → blink_pivot_scan p' x ≡ some (if j == i + 1 then cpid_at p i else cpid_at p j)
  scan_after x j more r =
      blink_pivot_scan_lem p' x _ sorted_after (omega (arith, d.count)) (Routes-after x j r)
      ∙ ap some (d.children _ (ground (arith, d.count, r.inside)) ∙ ground arith)

-- What a removal reports of the state, if it was asked for.
abbrev pub reported : Pivot → Option ℕ → Option ℕ
reported p none = none
reported p (some state) = some (pivot_state p state)

-- A removal that is accepted, and what it leaves.
abbrev pub Removes : Pivot → ℕ → Option ℕ → Option (ℕ × Pivot × Option ℕ) → Type 0
Removes p i state r = (p' : Pivot) × (r ≡ some (blp_accept, p', reported p state)) × Drops p p' i

pub removed-reported :
    (p : Pivot) (a : Pairs) (answer : ℕ) (state : Option ℕ)
    → removed p a answer state
      ≡ (answer, record p { records = p.records - 1; pairs = a }, reported p state)
unfolding removed
removed-reported p a answer none = refl
removed-reported p a answer (some state) = refl

Removes-drop_key :
    (p : Pivot) (i : ℕ) (state : Option ℕ)
    → i < p.records
    → Removes p i state (some (removed p (drop_key p.pairs p.records i) blp_accept state))
Removes-drop_key p i state h = (
  _,
  ap some (removed-reported p (drop_key p.pairs p.records i) blp_accept state),
  Drops-drop_key p i h,
)

unique_index :
    (n : ℕ) (keys : ℕ → ℕ) (i j : ℕ) → IsSorted n keys → i < n → j < n → keys i ≡ keys j → i ≡ j
unique_index n keys i j s hi hj e = ground (arith, s i j, s j i)

Removes-found :
    (p : Pivot) (i : ℕ) (state : Option ℕ) (e : Probe)
    → IsSortedPivot p
    → i < p.records
    → Locates p.records (key_at p) (key_at p i) e
    → Removes p i state (remove_at p state e)
unfolding remove_at
Removes-found p i state (at j) s h l =
    subst
      (λ k. Removes p i state (some (removed p (drop_key p.pairs p.records k) blp_accept state)))
      (unique_index p.records (key_at p) i j s h l.0 (sym l.1)) (Removes-drop_key p i state h)
Removes-found p i state (between j) s h l = absurd (ground (arith, l, s i j, s (j + 1) i))
Removes-found p i state diverged s h l = absurd l

entry_remove_lem :
    (p : Pivot) (i : ℕ) (state : Option ℕ)
    → IsSortedPivot p
    → i < p.records
    → Removes p i state (blink_entry_remove_from_pivot p (key_at p i) state)
unfolding blink_entry_remove_from_pivot
entry_remove_lem p i state s h =
    let not_empty : (p.records == 0) ≡ false = ground arith in
    let not_above : ltb (key_at p (p.records - 1)) (key_at p i) ≡ false =
      ground (arith, s i (p.records - 1)) in
    let not_below : ltb (key_at p i) (key_at p 0) ≡ false = ground (arith, s 0 i) in
    elim (Bool-cases (key_at p (p.records - 1) == key_at p i)) [
      | inl last ↦
          rw (not_empty, not_above, not_below, last)
            (
              record p {
                records = p.records - 1;
                pairs =
                    set_cpid (set_key p.pairs (p.records - 1) page_id_null) p.records page_id_null;
              },
              ap some (removed-reported p _ blp_accept state),
              subst
                  (λ k.
                    Drops p
                      (record p {
                        records = p.records - 1;
                        pairs =
                            set_cpid (set_key p.pairs (p.records - 1) page_id_null) p.records
                              page_id_null;
                      })
                      k)
                  (unique_index p.records (key_at p) (p.records - 1) i s (omega arith) h
                    (ground arith))
                  (Drops-last p (omega arith)),
            )
      | inr not_last ↦ elim (Bool-cases (key_at p 0 == key_at p i)) [
        | inl first ↦
            rw (not_empty, not_above, not_below, not_last, first)
              (subst
                (λ k.
                  Removes p k state
                    (some (removed p (drop_key p.pairs p.records 0) blp_accept state)))
                (unique_index p.records (key_at p) 0 i s (omega arith) h (ground arith))
                (Removes-drop_key p 0 state (omega arith)))
        | inr not_first ↦
            rw (not_empty, not_above, not_below, not_last, not_first)
              (Removes-found p i state _ s h (
                probe_whole p.records (key_at p) (key_at p i) (omega arith) (ground arith)
                  (ground arith)))
      ]
    ]

-- The removal of the key at `i`, on a pivot page with at least two records whose keys rise, is
-- accepted. The keys rise again, there is one record less, and every search ends where it ended
-- before, but for the keys that went to the child on the right of the key: they go to the child on
-- its left. The state is the one that is reported for the page.
pub blink_entry_remove_from_pivot_lem :
    (p : Pivot) (i : ℕ) (state : Option ℕ)
    → IsSortedPivot p
    → i < p.records
    → 1 < p.records
    → (p' : Pivot) × (blink_entry_remove_from_pivot p (key_at p i) state
        ≡ some (blp_accept, p', reported p state))
      × IsSortedPivot p'
      × (p'.records + 1 ≡ p.records)
      × ((x j : ℕ)
          → Routes p.records (key_at p) x j
          → blink_pivot_scan p' x ≡ some (if j == i + 1 then cpid_at p i else cpid_at p j))
blink_entry_remove_from_pivot_lem p i state s h more =
    let (p', answer, d) = entry_remove_lem p i state s h in
    (p', answer, sorted_after p p' i s h d, d.count, λ x j r. scan_after p p' i s h d x j more r)
