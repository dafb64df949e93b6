-- ===== src/Pool/Ids/Lifo.antt =====
-- src/pool/pool.c: sequences of ids through `allocate_pages_id` and `free_pages_id`.
use dsm_db.Shared.{
  ℕ, zero, suc, ◌+◌, ◌%◌, ◌^◌, ◌≤◌, ◌<◌, ◌≡◌, ◌⊎◌, inl, inr, refl, sym, ap, subst, ◌∙◌, true, false,
  some, List, [], ◌∷◌, ◌++◌, has, IsDistinct, AllBelow, length, arith, Bool-cases,
}
use dsm_db.Disk.{Storage}
use dsm_db.Page.{Page}
use dsm_db.Pool.Ids.{PageIds, allocate_pages_id, free_pages_id}
use dsm_db.Pool.Ids.Chain.{IsPageStorage}
use dsm_db.Pool.Ids.Stack.{
  FreeIds, take_freed, take_id, give_id, take_ids, give_ids, CanGiveAll, Represents,
  allocate_page_id_lem,
}
use dsm_db.Pool.Ids.Freeing.{free_page_id_lem}

module _ {File : Type 0} (s : Storage File Page) (good : IsPageStorage s) (root : ℕ) where
  -- `allocate_pages_id` gives as many ids as are asked for: those that were freed, the last one
  -- first, and new ones when none is left, in whatever store pages the freed ids lie.
  pub allocate_pages_id_lem :
      (i : PageIds File) (f : FreeIds) (fuel n : ℕ)
      → Represents s good root i f
      → (i' : PageIds File) × (allocate_pages_id s (suc fuel) n i ≡ some ((take_ids n f).0, i'))
        × Represents s good root i' (take_ids n f).1
  unfolding allocate_pages_id take_ids
  allocate_pages_id_lem i f fuel zero r = (i, refl, r)
  allocate_pages_id_lem i f fuel (suc n) r =
      let (i', takes, _, r') = allocate_page_id_lem s good root i f fuel r in
      let (i'', takes', r'') = allocate_pages_id_lem i' (take_id f).1 fuel n r' in
      (i'', rw (takes, takes') refl, r'')

  -- `free_pages_id` puts the ids on the freed ones, and starts new store pages as it needs them, if
  -- each id can be freed when its turn comes.
  pub free_pages_id_lem :
      (i : PageIds File) (f : FreeIds) (xs : List ℕ)
      → Represents s good root i f
      → CanGiveAll root f xs
      → (i' : PageIds File) × (free_pages_id s xs i ≡ some i')
        × Represents s good root i' (give_ids xs f)
  unfolding free_pages_id give_ids
  free_pages_id_lem i f [] r can = (i, refl, r)
  free_pages_id_lem i f (x ∷ xs) r can =
      let (i', gives, r', _) = free_page_id_lem s good root i f x r can.0 in
      let (i'', gives', r'') = free_pages_id_lem i' (give_id x f) xs r' can.1 in
      (i'', rw gives gives', r'')

-- The list backwards, before `ys`.
abbrev pub reverse_onto : List ℕ → List ℕ → List ℕ
reverse_onto [] ys = ys
reverse_onto (x ∷ xs) ys = reverse_onto xs (x ∷ ys)

take_ids-freed :
    (n : ℕ) (zs ys : List ℕ)
    → take_ids (length zs) (record { next = n; freed = zs ++ ys })
      ≡ (zs, record { next = n; freed = ys })
unfolding take_ids take_id take_freed
take_ids-freed n [] ys = refl
take_ids-freed n (z ∷ zs) ys = rw (take_ids-freed n zs ys) refl

give_ids-freed :
    (f : FreeIds) (xs : List ℕ)
    → give_ids xs f ≡ record { next = f.next; freed = reverse_onto xs f.freed }
unfolding give_ids give_id
give_ids-freed f [] = refl
give_ids-freed f (x ∷ xs) = give_ids-freed (record { next = f.next; freed = x ∷ f.freed }) xs

reverse_onto-append : (xs ys zs : List ℕ) → reverse_onto xs (ys ++ zs) ≡ reverse_onto xs ys ++ zs
reverse_onto-append [] ys zs = refl
reverse_onto-append (x ∷ xs) ys zs = reverse_onto-append xs (x ∷ ys) zs

length-reverse_onto : (xs ys : List ℕ) → length (reverse_onto xs ys) ≡ length xs + length ys
length-reverse_onto [] ys = omega arith
length-reverse_onto (x ∷ xs) ys = omega (arith, length-reverse_onto xs (x ∷ ys))

take_ids-give_ids :
    (f : FreeIds) (xs : List ℕ) → take_ids (length xs) (give_ids xs f) ≡ (reverse_onto xs [], f)
take_ids-give_ids f xs =
    let n : length xs ≡ length (reverse_onto xs []) = omega (arith, length-reverse_onto xs []) in
    ap (take_ids (length xs)) (give_ids-freed f xs)
    ∙ ap (λ l. take_ids (length xs) (record { next = f.next; freed = l }))
        (reverse_onto-append xs [] f.freed)
    ∙ ap (λ k. take_ids k (record { next = f.next; freed = reverse_onto xs [] ++ f.freed })) n
    ∙ take_ids-freed f.next (reverse_onto xs []) f.freed

-- The store pages stand for a counter and freed ids, over a storage that keeps its pages and writes
-- them whole, and the block of the store page is marked as dirty. Ids below 2^20 that are not free
-- and not that of the first store page, when their turn comes, are freed. Then they are given out
-- again by the next allocations, the last one first, and what was free before is free afterwards,
-- over any number of store pages that go to the file and come back.
pub allocate_pages_id-free_pages_id :
    {File : Type 0} (s : Storage File Page) (good : IsPageStorage s) (root : ℕ) (i : PageIds File)
    (f : FreeIds) (fuel : ℕ) (xs : List ℕ)
    → Represents s good root i f
    → CanGiveAll root f xs
    → (i' i'' : PageIds File) × (free_pages_id s xs i ≡ some i')
      × (allocate_pages_id s (suc fuel) (length xs) i' ≡ some (reverse_onto xs [], i''))
      × Represents s good root i'' f
allocate_pages_id-free_pages_id s good root i f fuel xs r can =
    let (i', gives, r') = free_pages_id_lem s good root i f xs r can in
    let (i'', takes, r'') =
      allocate_pages_id_lem s good root i' (give_ids xs f) fuel (length xs) r' in
    (
      i',
      i'',
      gives,
      takes ∙ ap (λ t. some (t.0, i'')) (take_ids-give_ids f xs),
      subst (Represents s good root i'') (ap (λ t. t.1) (take_ids-give_ids f xs)) r'',
    )

-- `n` ids that are taken from the counter `k` and the freed ids `zs`.
abbrev ids_from : ℕ → ℕ → List ℕ → List ℕ × FreeIds
ids_from n k zs = take_ids n (record { next = k; freed = zs })

-- What is given out was free, or is new.
is_free_or_new :
    (n k x : ℕ) (zs : List ℕ)
    → k + n < 2 ^ 32
    → has x (ids_from n k zs).0 ≡ true
    → (has x zs ≡ true) ⊎ (k ≤ x)
unfolding take_ids take_id take_freed
is_free_or_new zero k x zs h m = absurd (ground arith)
is_free_or_new (suc n) k x [] h m =
    let small : (k + 1) % 2 ^ 32 ≡ k + 1 = omega arith in
    let m' : has x (k ∷ (ids_from n (k + 1) []).0) ≡ true =
      ap (λ j. has x (k ∷ (ids_from n j []).0)) (sym small) ∙ m in
    ground (arith, is_free_or_new n (k + 1) x [] (omega arith))
is_free_or_new (suc n) k x (z ∷ zs) h m = ground (arith, is_free_or_new n k x zs (omega arith))

-- What is neither free nor new is not given out.
not_given :
    (n k x : ℕ) (zs : List ℕ)
    → k + n < 2 ^ 32
    → has x zs ≡ false
    → x < k
    → has x (ids_from n k zs).0 ≡ false
not_given n k x zs small out below = elim (Bool-cases (has x (ids_from n k zs).0)) [
  | inl there ↦ absurd (elim (is_free_or_new n k x zs small there) [
    | inl listed ↦ cc (out, listed)
    | inr high ↦ omega arith
  ])
  | inr e ↦ e
]

-- The ids that are given out are different from each other.
take_ids-IsDistinct :
    (n k : ℕ) (zs : List ℕ)
    → k + n < 2 ^ 32
    → IsDistinct zs
    → AllBelow k zs
    → IsDistinct (ids_from n k zs).0
unfolding take_ids take_id take_freed
take_ids-IsDistinct zero k zs h d b = tt
take_ids-IsDistinct (suc n) k [] h d b =
    let small : (k + 1) % 2 ^ 32 ≡ k + 1 = omega arith in
    subst (λ j. IsDistinct (k ∷ (ids_from n j []).0)) (sym small)
      (
        not_given n (k + 1) k [] (omega arith) refl (omega arith),
        take_ids-IsDistinct n (k + 1) [] (omega arith) tt tt,
      )
take_ids-IsDistinct (suc n) k (z ∷ zs) h d b =
    (not_given n k z zs (omega arith) d.0 b.0, take_ids-IsDistinct n k zs (omega arith) d.1 b.1)

-- The store pages stand for a counter and freed ids, over a storage that keeps its pages. The ids of
-- one call of `allocate_pages_id` are different from each other, if the freed ids lie below the
-- counter and the counter does not reach 2^32.
pub allocate_pages_id-IsDistinct :
    {File : Type 0} (s : Storage File Page) (good : IsPageStorage s) (root : ℕ) (i : PageIds File)
    (f : FreeIds) (fuel n : ℕ)
    → Represents s good root i f
    → AllBelow f.next f.freed
    → f.next + n < 2 ^ 32
    → (ids : List ℕ) × (i' : PageIds File) × (allocate_pages_id s (suc fuel) n i ≡ some (ids, i'))
      × IsDistinct ids
allocate_pages_id-IsDistinct s good root i f fuel n (id, prev, held, bs, xs, h) below small =
    let (i', takes, _) = allocate_pages_id_lem s good root i f fuel n (id, prev, held, bs, xs, h) in
    ((take_ids n f).0, i', takes, take_ids-IsDistinct n f.next f.freed small h.distinct below)
