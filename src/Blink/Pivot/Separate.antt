-- ===== src/Blink/Pivot/Separate.antt =====
-- src/index/b_page.c: which child a key goes to, after `blink_entry_insert_to_pivot` with the type
-- SEP, the one of an insertion in the tree: right at both ends of the page, and wrong between.
use dsm_db.Shared.{
  ℕ, ◌+◌, ◌-◌, ◌≤◌, ◌<◌, ◌≡◌, ◌≢◌, ◌⊎◌, inl, inr, refl, ◌∙◌, ap, subst, true, false, some, ltb, leb,
  ◌==◌, ◌&&◌, ◌||◌, if◌then◌else◌, arith,
}
use dsm_db.Blink.{Probe, at, between, diverged}
use dsm_db.Blink.Search.{Locates, probe_whole}
use dsm_db.Blink.Pivot.{
  Pivot, Kind, sep, key_at, cpid_at, put_pair, append_pair, put_at, blp_accept, blink_pivot_scan,
  blink_entry_insert_to_pivot,
}
use dsm_db.Blink.Pivot.Route.{Routes, IsSortedPivot, blink_pivot_scan_lem}
use dsm_db.Blink.Pivot.Insert.{
  key-put_pair, cpid-put_move, cpid-put_sep, inserted-IsSorted, inserted-Routes, Follows,
  records-put_pair, Follows-put_pair, Follows-append_pair, key-append_pair, records-append_pair,
  Separates,
}

-- The key is none of the page's.
abbrev pub IsNew : Pivot → ℕ → Type 0
IsNew p key = (j : ℕ) → j < p.records → key_at p j ≢ key

-- The keys of a page with one more, at `i`.
abbrev Keyed : Pivot → Pivot → ℕ → ℕ → Type 0
Keyed p p' i key =
    (a : ℕ)
    → a ≤ p.records
    → key_at p' a ≡ (if a == i then key else if ltb a i then key_at p a else key_at p (a - 1))

module _ (p p' : Pivot) (i key pid : ℕ) (s : IsSortedPivot p)
    (r : Routes p.records (key_at p) key i) (new : IsNew p key) (count : p'.records ≡ p.records + 1)
    (keyed : Keyed p p' i key) where
  sorted_after : IsSortedPivot p'
  sorted_after a b lt hb =
      inserted-IsSorted p.records i key (key_at p) (key_at p') s r new keyed a b lt (omega arith)

  Routes-after :
      (x j : ℕ)
      → Routes p.records (key_at p) x j
      → blink_pivot_scan p' x
        ≡ some (cpid_at p' (if ltb j i || (j == i && leb x key) then j else j + 1))
  Routes-after x j rx =
      blink_pivot_scan_lem p' x _ sorted_after (omega arith)
        (rw count (inserted-Routes p.records i key (key_at p) (key_at p') s r new keyed x j rx))

  Separates-after : Follows p p' i pid → Separates p p' i key pid
  Separates-after f x j rx =
      Routes-after x j rx ∙ ap some (f _ (ground (arith, rx.inside)) ∙ ground arith)

-- Where a key strictly between the first and the last one goes.
put_between :
    (p : Pivot) (key pid i : ℕ) (kind : Kind) (e : Probe)
    → IsSortedPivot p
    → Routes p.records (key_at p) key i
    → IsNew p key
    → Locates p.records (key_at p) key e
    → put_at p key pid kind e ≡ some (blp_accept, put_pair p i key pid kind)
unfolding put_at
put_between p key pid i kind (at a) s r new l = absurd (new a l.0 l.1)
put_between p key pid i kind (between a) s r new l =
    ap (λ b. some (blp_accept, put_pair p b key pid kind))
      (ground (arith, r.below a, r.below (a + 1), r.above a, r.inside))
put_between p key pid i kind diverged s r new l = absurd l

insert_between :
    (p : Pivot) (key pid i : ℕ) (kind : Kind)
    → IsSortedPivot p
    → Routes p.records (key_at p) key i
    → IsNew p key
    → 0 < i
    → i < p.records
    → blink_entry_insert_to_pivot p key pid kind ≡ some (blp_accept, put_pair p i key pid kind)
unfolding blink_entry_insert_to_pivot
insert_between p key pid i kind s r new low high =
    let not_empty : (p.records == 0) ≡ false = ground arith in
    let last : (ltb (key_at p (p.records - 1)) key) ≡ false =
      ground (arith, r.above (p.records - 1)) in
    let first : (ltb key (key_at p 0)) ≡ false = ground (arith, r.below 0) in
    rw (not_empty, last, first)
      (put_between p key pid i kind _ s r new
        (probe_whole p.records (key_at p) key (omega arith) (ground arith) (ground arith)))

-- A new key at an end of a pivot page with 1 to 65,534 records, whose keys rise, is put in with the type SEP.
-- The keys rise again, there is one record more, and every search ends where it ended before, but
-- for the keys above the new key that went where the new key went: they go to the new child.
pub blink_entry_insert_to_pivot-Separates :
    (p : Pivot) (key pid i : ℕ)
    → IsSortedPivot p
    → p.records < 65535
    → 0 < p.records
    → Routes p.records (key_at p) key i
    → IsNew p key
    → (i ≡ 0) ⊎ (i ≡ p.records)
    → (p' : Pivot) × (blink_entry_insert_to_pivot p key pid sep ≡ some (blp_accept, p'))
      × IsSortedPivot p'
      × (p'.records ≡ p.records + 1)
      × Separates p p' i key pid
unfolding blink_entry_insert_to_pivot
blink_entry_insert_to_pivot-Separates p key pid i s room h r new (inl front) =
    let not_empty : (p.records == 0) ≡ false = ground arith in
    let last : (ltb (key_at p (p.records - 1)) key) ≡ false =
      ground (arith, r.above (p.records - 1)) in
    let first : (ltb key (key_at p 0)) ≡ true = ground (arith, r.above 0, new 0) in
    let count = records-put_pair p 0 key pid sep room in
    let r0 = subst (λ i. Routes p.records (key_at p) key i) front r in
    let keyed : Keyed p (put_pair p 0 key pid sep) 0 key =
      λ a ha. key-put_pair p 0 key pid a sep h ha in
    (
      put_pair p 0 key pid sep,
      rw (not_empty, last, first) refl,
      sorted_after p (put_pair p 0 key pid sep) 0 key pid s r0 new count keyed,
      count,
      rw front (
          Separates-after p (put_pair p 0 key pid sep) 0 key pid s r0 new count keyed
            (Follows-put_pair p key pid h)),
    )
blink_entry_insert_to_pivot-Separates p key pid i s room h r new (inr end) =
    let not_empty : (p.records == 0) ≡ false = ground arith in
    let last : (ltb (key_at p (p.records - 1)) key) ≡ true =
      ground (arith, r.below (p.records - 1)) in
    let count = records-append_pair p key pid room in
    let rn = subst (λ i. Routes p.records (key_at p) key i) end r in
    let keyed : Keyed p (append_pair p key pid) p.records key =
      λ a ha. key-append_pair p key pid a ha in
    (
      append_pair p key pid,
      rw (not_empty, last) refl,
      sorted_after p (append_pair p key pid) p.records key pid s rn new count keyed,
      count,
      rw end (
          Separates-after p (append_pair p key pid) p.records key pid s rn new count keyed
            (Follows-append_pair p key pid)),
    )

-- A new key strictly between the first key and the last one of a pivot page whose keys rise, with
-- fewer than 65,535 records, is put in with the type SEP. Then a search of a key up to the page's first key does not end at the first
-- child any more: it goes to the new child, if the new key stands next to the first one, and else
-- to the second child. And a search of the new key goes to the new child too, unless the new key
-- stands next to the first one: then it goes to the first child.
pub blink_entry_insert_to_pivot_misroutes :
    (p : Pivot) (key pid i x : ℕ)
    → IsSortedPivot p
    → p.records < 65535
    → Routes p.records (key_at p) key i
    → IsNew p key
    → 0 < i
    → i < p.records
    → x ≤ key_at p 0
    → (p' : Pivot) × (blink_entry_insert_to_pivot p key pid sep ≡ some (blp_accept, p'))
      × (blink_pivot_scan p x ≡ some (cpid_at p 0))
      × (blink_pivot_scan p' x ≡ some (if i == 1 then pid else cpid_at p 1))
      × (blink_pivot_scan p' key ≡ some (if i == 1 then cpid_at p 0 else pid))
blink_entry_insert_to_pivot_misroutes p key pid i x s room r new low high le =
    let count = records-put_pair p i key pid sep room in
    let keyed : Keyed p (put_pair p i key pid sep) i key =
      λ a ha. key-put_pair p i key pid a sep high ha in
    let rx : Routes p.records (key_at p) x 0 = record {
      inside = omega arith;
      below = λ j hj. absurd (omega arith);
      above = λ j q hj. ground (arith, s 0 j);
    } in
    (
      put_pair p i key pid sep,
      insert_between p key pid i sep s r new low high,
      blink_pivot_scan_lem p x 0 s (omega arith) rx,
      Routes-after p (put_pair p i key pid sep) i key pid s r new count keyed x 0 rx
          ∙ ap some (ground (arith, cpid-put_sep p i key pid 0, cpid-put_move p i key pid 1 high)),
      Routes-after p (put_pair p i key pid sep) i key pid s r new count keyed key i r
          ∙ ap some (
              ground (
                arith,
                cpid-put_sep p i key pid i,
                cpid-put_move p i key pid 0 high,
                cpid-put_move p i key pid i high,
              )),
    )
