-- ===== src/Pool/Marks.antt =====
-- src/pool/pool.c: the marks of a block that is in use, while another one is taken or marked.
use dsm_db.Shared.{
  ℕ, zero, suc, ◌+◌, ◌-◌, ◌*◌, ◌/◌, ◌%◌, ◌<◌, ◌≤◌, ◌≡◌, ◌≢◌, inl, inr, refl, sym, ap, subst, ◌∙◌,
  false, ◌==◌, Option, some, none, List, [], ◌∷◌, has, arith, Bool-cases,
}
use dsm_db.Pool.Blocks.{
  subpoolblocks, SubPool, spm_allocate_block, spm_free_block, take_block, give_block,
}
use dsm_db.Pool.Blocks.Laws.{IsSubPool, spm_allocate_block_lem}
use dsm_db.Pool.Pages.{
  PoolMg, set_flags, set_sub_pool, allocate_block_from, allocate_block, free_block,
  get_block_spm_index,
}
use dsm_db.Pool.Frames.{Subs, IsUsed, Subs-same, get_block_spm_index_lem}

abbrev pub flags_in : (ℕ → SubPool) → ℕ → ℕ
flags_in spms x = ((spms (x / subpoolblocks)).buf_list (x % subpoolblocks)).flags

-- The marks of a block after an allocation.
flags_left : Option (Option ℕ × SubPool) → ℕ → ℕ
flags_left none k = 0
flags_left (some (r, spm)) k = (spm.buf_list k).flags

all_flags_left : Option (Option ℕ × (ℕ → SubPool)) → ℕ → ℕ
all_flags_left none x = 0
all_flags_left (some (r, spms)) x = flags_in spms x

-- The sub-pool's first free block is marked, and no other.
flags-taken :
    (spm : SubPool) (c k : ℕ) (rest : List ℕ)
    → IsSubPool spm (c ∷ rest)
    → has k (c ∷ rest) ≡ false
    → flags_left (spm_allocate_block spm) k ≡ (spm.buf_list k).flags
unfolding spm_allocate_block take_block flags_left
flags-taken spm c k rest is out =
    let left : (spm.used_blocks == subpoolblocks) ≡ false = ground (arith, is.count) in
    let other : (k == c) ≡ false = ground (arith, out) in
    rw (left, is.linked.0) (ground (arith, other))

flags_in-set :
    (spms : ℕ → SubPool) (i x : ℕ) (spm : SubPool)
    → (x / subpoolblocks ≡ i
        → (spm.buf_list (x % subpoolblocks)).flags ≡ ((spms i).buf_list (x % subpoolblocks)).flags)
    → flags_in (set_sub_pool spms i spm) x ≡ flags_in spms x
flags_in-set spms i x spm same = elim (Bool-cases (x / subpoolblocks == i)) [
  | inl at ↦
      let e : x / subpoolblocks ≡ i = ground arith in
      rw (flags_in, at) (same e ∙ ap (λ j. ((spms j).buf_list (x % subpoolblocks)).flags) (sym e))
  | inr off ↦ rw (flags_in, off) refl
]

-- One more sub-pool, whose free blocks are `l`.
flags-step :
    (n i x : ℕ) (spms : ℕ → SubPool) (free : ℕ → List ℕ) (l : List ℕ)
    → i < 4
    → Subs spms free
    → IsUsed free x
    → free i ≡ l
    → ((spms' : ℕ → SubPool)
        → Subs spms' free
        → all_flags_left (allocate_block_from n (i + 1) spms') x ≡ flags_in spms' x)
    → all_flags_left (allocate_block_from (suc n) i spms) x ≡ flags_in spms x
unfolding allocate_block_from all_flags_left flags_left
flags-step n i x spms free [] h all used e next =
    let none_here : spm_allocate_block (spms i) ≡ some (none, spms i) =
      spm_allocate_block_lem (spms i) [] (subst (IsSubPool (spms i)) e (all i h)) in
    rw none_here (
      next (set_sub_pool spms i (spms i)) (Subs-same spms free i all)
      ∙ flags_in-set spms i x (spms i) (λ at. refl))
flags-step n i x spms free (c ∷ rest) h all used e next =
    let is : IsSubPool (spms i) (c ∷ rest) = subst (IsSubPool (spms i)) e (all i h) in
    let (spm', takes, _) = spm_allocate_block_lem (spms i) (c ∷ rest) is in
    let out : has (x % subpoolblocks) (free (x / subpoolblocks)) ≡ false = used.1 in
    rw takes (
      flags_in-set spms i x spm' (λ at.
        flags_kept spm' c takes
        ∙ flags-taken (spms i) c (x % subpoolblocks) rest is (
            ap (has (x % subpoolblocks)) (sym e)
            ∙ ap (λ j. has (x % subpoolblocks) (free j)) (sym at)
            ∙ out)))
  where
    flags_kept :
        (spm' : SubPool) (c : ℕ)
        → spm_allocate_block (spms i) ≡ some (some c, spm')
        → (spm'.buf_list (x % subpoolblocks)).flags
          ≡ flags_left (spm_allocate_block (spms i)) (x % subpoolblocks)
    flags_kept spm' c takes = rw takes refl

flags-search :
    (n i x : ℕ) (spms : ℕ → SubPool) (free : ℕ → List ℕ)
    → i + n ≤ 4
    → Subs spms free
    → IsUsed free x
    → all_flags_left (allocate_block_from n i spms) x ≡ flags_in spms x
unfolding allocate_block_from all_flags_left
flags-search zero i x spms free h all used = refl
flags-search (suc n) i x spms free h all used =
    flags-step n i x spms free (free i) (omega arith) all used refl
      (λ spms' all'. flags-search n (i + 1) x spms' free (omega arith) all' used)

-- An allocation marks no block that was in use.
pub flags-allocate_block :
    (spms spms' : ℕ → SubPool) (free : ℕ → List ℕ) (r : Option ℕ) (x : ℕ)
    → Subs spms free
    → IsUsed free x
    → allocate_block spms ≡ some (r, spms')
    → flags_in spms' x ≡ flags_in spms x
unfolding all_flags_left
flags-allocate_block spms spms' free r x all used takes =
    ap (λ t. all_flags_left t x) (sym takes) ∙ flags-search 4 0 x spms free (omega arith) all used

-- Nor does a mark on another block.
pub flags-set_flags :
    {File : Type 0} (pm : PoolMg File) (b bit x : ℕ)
    → x ≢ b
    → flags_in (set_flags pm b bit).sub_pool x ≡ flags_in pm.sub_pool x
flags-set_flags pm b bit x ne = flags_in-set pm.sub_pool (b / subpoolblocks) x _ (λ at.
    let off : (x % subpoolblocks == b % subpoolblocks) ≡ false = ground (arith, ne, at) in
    rw off refl)

-- The marks of a block after another one is given back.
pool_flags_left : {File : Type 0} → Option (PoolMg File) → ℕ → ℕ
pool_flags_left none x = 0
pool_flags_left (some pm) x = flags_in pm.sub_pool x

pub flags-free_block :
    {File : Type 0} (pm pm' : PoolMg File) (b x : ℕ)
    → b < 64
    → x ≢ b
    → free_block pm b ≡ some pm'
    → flags_in pm'.sub_pool x ≡ flags_in pm.sub_pool x
unfolding pool_flags_left free_block spm_free_block give_block
flags-free_block pm pm' b x inside ne frees =
    let here : get_block_spm_index b ≡ some (b / subpoolblocks) =
      get_block_spm_index_lem b inside in
    let cleared : pool_flags_left (free_block pm b) x ≡ flags_in pm.sub_pool x = rw here (
      flags_in-set pm.sub_pool (b / subpoolblocks) x _ (λ at.
        let off : (x % subpoolblocks == b - subpoolblocks * (b / subpoolblocks)) ≡ false =
          ground (arith, ne, at) in
        rw off refl)) in
    ap (λ t. pool_flags_left t x) (sym frees) ∙ cleared
