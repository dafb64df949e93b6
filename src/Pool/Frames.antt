-- ===== src/Pool/Frames.antt =====
-- src/pool/pool.c: the blocks of all sub-pools, by their numbers.
use dsm_db.Shared.{
  ℕ, zero, suc, ◌+◌, ◌-◌, ◌*◌, ◌/◌, ◌%◌, ◌≤◌, ◌<◌, ◌≡◌, inl, inr, refl, ap, subst, ◌∙◌, false, ◌==◌,
  Option, some, none, List, [], ◌∷◌, if◌then◌else◌, has, arith, Bool-cases,
}
use dsm_db.Page.{Page}
use dsm_db.Pool.Blocks.{subpoolblocks, SubPool, spm_allocate_block, spm_free_block}
use dsm_db.Pool.Blocks.Laws.{
  IsSubPool, flagged-IsSubPool, spm_allocate_block_lem, spm_free_block_lem,
}
use dsm_db.Disk.{Storage}
use dsm_db.Pool.Calls.{set_type}
use dsm_db.Pool.Pages.{
  PoolMg, set_flags, page_gtype_bit, page_itype_bit, set_sub_pool, spm_index_below,
  get_block_spm_index, allocate_block_from, allocate_block, free_block,
}

-- The free blocks of each of the four sub-pools.
abbrev pub Subs : (ℕ → SubPool) → (ℕ → List ℕ) → Type 0
Subs spms free = (i : ℕ) → i < 4 → IsSubPool (spms i) (free i)

abbrev pub set_free : (ℕ → List ℕ) → ℕ → List ℕ → ℕ → List ℕ
set_free free i l j = if j == i then l else free j

-- A block of the pool that is in use.
abbrev pub IsUsed : (ℕ → List ℕ) → ℕ → Type 0
IsUsed free b = (b < 64) × (has (b % subpoolblocks) (free (b / subpoolblocks)) ≡ false)

-- Each block belongs to the sub-pool that its number says.
pub get_block_spm_index_lem : (b : ℕ) → b < 64 → get_block_spm_index b ≡ some (b / subpoolblocks)
unfolding get_block_spm_index spm_index_below
get_block_spm_index_lem b h = ground arith

Subs-set :
    (spms : ℕ → SubPool) (free : ℕ → List ℕ) (i : ℕ) (spm : SubPool) (l : List ℕ)
    → Subs spms free
    → IsSubPool spm l
    → Subs (set_sub_pool spms i spm) (set_free free i l)
Subs-set spms free i spm l all new j h = elim (Bool-cases (j == i)) [
  | inl same ↦ rw same new
  | inr other ↦ rw other (all j h)
]

-- A refusal leaves the sub-pools as they were.
pub Subs-same :
    (spms : ℕ → SubPool) (free : ℕ → List ℕ) (i : ℕ)
    → Subs spms free
    → Subs (set_sub_pool spms i (spms i)) free
Subs-same spms free i all j h = elim (Bool-cases (j == i)) [
  | inl same ↦
      let e : j ≡ i = ground arith in rw same (subst (λ k. IsSubPool (spms k) (free j)) e (all j h))
  | inr other ↦ rw other (all j h)
]

-- What a search for a free block, in the `n` sub-pools from `i` on, ends with: there is none in them, or the
-- first block `c` of the sub-pool `j` is taken.
pub data Found (free : ℕ → List ℕ) (i n : ℕ) (r : Option (Option ℕ × (ℕ → SubPool))) : Type 0 where
  refused :
      (spms' : ℕ → SubPool)
      → r ≡ some (none, spms')
      → Subs spms' free
      → ((j : ℕ) → i ≤ j → j < i + n → free j ≡ [])
      → Found free i n r
  found :
      (j c : ℕ) (rest : List ℕ) (spms' : ℕ → SubPool)
      → r ≡ some (some (subpoolblocks * j + c), spms')
      → j < 4
      → free j ≡ c ∷ rest
      → Subs spms' (set_free free j rest)
      → Found free i n r

-- The search in one more sub-pool, whose free blocks are `l`.
search_step :
    (n i : ℕ) (spms : ℕ → SubPool) (free : ℕ → List ℕ) (l : List ℕ)
    → i < 4
    → free i ≡ l
    → Subs spms free
    → ((spms' : ℕ → SubPool)
        → Subs spms' free
        → Found free (i + 1) n (allocate_block_from n (i + 1) spms'))
    → Found free i (suc n) (allocate_block_from (suc n) i spms)
unfolding allocate_block_from
search_step n i spms free [] h e all next =
    let none_here : spm_allocate_block (spms i) ≡ some (none, spms i) =
      spm_allocate_block_lem (spms i) [] (subst (IsSubPool (spms i)) e (all i h)) in
    rw none_here (elim (next (set_sub_pool spms i (spms i)) (Subs-same spms free i all)) [
      | refused spms' r all' rest ↦ refused spms' r all' (λ j le lt. elim (Bool-cases (j == i)) [
        | inl same ↦ let e' : j ≡ i = ground arith in ap free e' ∙ e
        | inr other ↦ rest j (ground arith) (omega arith)
      ])
      | found j c rest spms' r lt e' all' ↦ found j c rest spms' r lt e' all'
    ])
search_step n i spms free (c ∷ rest) h e all next =
    let (spm', takes, sub') =
      spm_allocate_block_lem (spms i) (c ∷ rest) (subst (IsSubPool (spms i)) e (all i h)) in
    rw takes
      (found i c rest (set_sub_pool spms i spm') refl h e (Subs-set spms free i spm' rest all sub'))

search :
    (n i : ℕ) (spms : ℕ → SubPool) (free : ℕ → List ℕ)
    → i + n ≤ 4
    → Subs spms free
    → Found free i n (allocate_block_from n i spms)
unfolding allocate_block_from
search zero i spms free h all = refused spms refl all (λ j le lt. absurd (omega arith))
search (suc n) i spms free h all =
    search_step n i spms free (free i) (omega arith) refl all
      (λ spms' all'. search n (i + 1) spms' free (omega arith) all')

-- The pool gives the first free block of the first sub-pool that has one.
pub allocate_block_lem :
    (spms : ℕ → SubPool) (free : ℕ → List ℕ) → Subs spms free → Found free 0 4 (allocate_block spms)
allocate_block_lem spms free all = search 4 0 spms free (omega arith) all

-- A block in use goes back to its sub-pool.
pub free_block_lem :
    {File : Type 0} (pm : PoolMg File) (free : ℕ → List ℕ) (b : ℕ)
    → Subs pm.sub_pool free
    → IsUsed free b
    → (spms' : ℕ → SubPool) × (free_block pm b ≡ some (record pm { sub_pool = spms' }))
      × Subs spms'
          (set_free free (b / subpoolblocks) (b % subpoolblocks ∷ free (b / subpoolblocks)))
unfolding free_block
free_block_lem pm free b all used =
    let i : ℕ = b / subpoolblocks in
    let place : b - subpoolblocks * i ≡ b % subpoolblocks = omega arith in
    let (sub', _) =
      spm_free_block_lem (pm.sub_pool i) (b % subpoolblocks) (free i)
        (all i (omega (arith, used.0))) (omega arith) used.1 in
    (
      set_sub_pool pm.sub_pool i (spm_free_block (pm.sub_pool i) (b % subpoolblocks)),
      rw (get_block_spm_index_lem b used.0, place) refl,
      Subs-set pm.sub_pool free i _ _ all sub',
    )

-- The marks on a block leave the free blocks as they are.
pub set_flags-Subs :
    {File : Type 0} (pm : PoolMg File) (free : ℕ → List ℕ) (b bit : ℕ)
    → Subs pm.sub_pool free
    → Subs (set_flags pm b bit).sub_pool free
set_flags-Subs pm free b bit all j h = elim (Bool-cases (j == b / subpoolblocks)) [
  | inl same ↦
      let e : j ≡ b / subpoolblocks = ground arith in
      rw same (
        flagged-IsSubPool (pm.sub_pool (b / subpoolblocks)) (free j) (b % subpoolblocks) _
          (subst (λ k. IsSubPool (pm.sub_pool k) (free j)) e (all j h)))
  | inr other ↦ rw other (all j h)
]

pub set_type_lem :
    {File : Type 0} (s : Storage File Page) (b open_type : ℕ) (pm : PoolMg File) (free : ℕ → List ℕ)
    → Subs pm.sub_pool free
    → (spms' : ℕ → SubPool) × (set_type s b open_type pm ≡ record pm { sub_pool = spms' })
      × Subs spms' free
unfolding set_type
set_type_lem s b open_type pm free all = elim (Bool-cases (open_type == page_gtype_bit)) [
  | inl g ↦
      let e : (open_type == page_itype_bit) ≡ false = ground arith in
      (
        (set_flags pm b page_gtype_bit).sub_pool,
        rw (g, e) refl,
        set_flags-Subs pm free b page_gtype_bit all,
      )
  | inr g ↦ (elim (Bool-cases (open_type == page_itype_bit)) [
    | inl e ↦ (
      (set_flags pm b page_itype_bit).sub_pool,
      rw (g, e) refl,
      set_flags-Subs pm free b page_itype_bit all,
    )
    | inr e ↦ (pm.sub_pool, rw (g, e) refl, all)
  ])
]
