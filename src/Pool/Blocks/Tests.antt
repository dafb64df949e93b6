-- ===== src/Pool/Blocks/Tests.antt =====
-- A new sub-pool: runs, and the theorems at inputs that meet their conditions.
use dsm_db.Shared.{ℕ, ◌≡◌, refl, Option, some, none, List, [], ◌∷◌, range_from}
use dsm_db.Pool.Blocks.{
  SubPool, new_sub_pool, take_block, take_blocks, spm_allocate_blocks, give_block, give_blocks,
  spm_free_blocks,
}
use dsm_db.Pool.Blocks.Laws.{IsSubPool, new_sub_pool-IsSubPool, spm_allocate_blocks_lem}

abbrev used_after : Option (Option (List ℕ) × SubPool) → ℕ
used_after none = 0
used_after (some (none, spm)) = 0
used_after (some (some bs, spm)) = (spm_free_blocks spm bs 3).used_blocks

three_and_back : used_after (spm_allocate_blocks new_sub_pool 3) ≡ 0
unfolding spm_free_blocks give_blocks give_block spm_allocate_blocks take_blocks take_block
    new_sub_pool
three_and_back = refl

-- The blocks 0 and 1 are in use.
abbrev rest : List ℕ
rest = range_from 2 14

two_taken : (spm : SubPool) × IsSubPool spm rest
two_taken =
    let (spm', _, s) =
      spm_allocate_blocks_lem new_sub_pool (0 ∷ 1 ∷ []) rest new_sub_pool-IsSubPool in
    (spm', s)
