-- ===== src/Pool/Blocks/Laws.antt =====
-- src/pool/pool.c: what the calls on a sub-pool do with its blocks.
use dsm_db.Shared.{
  ℕ, ◌+◌, ◌-◌, ◌%◌, ◌^◌, ◌<◌, ◌≡◌, refl, true, false, ltb, ◌==◌, Option, some, none, List, [], ◌∷◌,
  ◌++◌, has, IsDistinct, AllBelow, length, length-append, length-lt, arith, range_from,
  IsDistinct-range_from, AllBelow-range_from, IsDistinct-tail, AllBelow-tail,
}
use dsm_db.Pool.Blocks.{
  subpoolblocks, SubPool, set_block, new_sub_pool, spm_allocate_block, spm_allocate_blocks,
  spm_free_block,
}
use dsm_db.Pool.Blocks.Free.{Linked, Linked-same, take_block_lem, take_blocks_lem, give_block_lem}

-- The free blocks of a sub-pool, none of them twice, and the count of the others.
pub record IsSubPool (spm : SubPool) (free : List ℕ) : Type 0 where
  pub linked : Linked spm.buf_list spm.empty_block free
  pub distinct : IsDistinct free
  pub below : AllBelow subpoolblocks free
  pub count : spm.used_blocks + length free ≡ subpoolblocks

pub new_sub_pool-IsSubPool : IsSubPool new_sub_pool (range_from 0 subpoolblocks)
unfolding new_sub_pool
new_sub_pool-IsSubPool = record {
  linked = (
    refl,
    (
      refl,
      (
        refl,
        (
          refl,
          (
            refl,
            (
              refl,
              (refl, (refl, (refl, (refl, (refl, (refl, (refl, (refl, (refl, (refl, refl)))))))))),
            ),
          ),
        ),
      ),
    ),
  );
  distinct = IsDistinct-range_from 0 16;
  below = AllBelow-range_from 0 16 16 (omega arith);
  count = refl;
}

-- In a sub-pool with a free block, the first free block is given out, and the others stay free.
allocate_some :
    (spm : SubPool) (b : ℕ) (free : List ℕ)
    → IsSubPool spm (b ∷ free)
    → (spm' : SubPool) × (spm_allocate_block spm ≡ some (some b, spm')) × IsSubPool spm' free
unfolding spm_allocate_block
allocate_some spm b free s =
    let (spm', takes, l, used) =
      take_block_lem (record spm { used_blocks = (spm.used_blocks + 1) % 2 ^ 32 }) b free
        s.linked in
    let left : (spm.used_blocks == subpoolblocks) ≡ false = ground (arith, s.count) in
    (
      spm',
      rw (left, takes) refl,
      record {
        linked = l;
        distinct = s.distinct.1;
        below = s.below.1;
        count = omega (arith, used, s.count);
      },
    )

allocate_none : (spm : SubPool) → IsSubPool spm [] → spm_allocate_block spm ≡ some (none, spm)
unfolding spm_allocate_block
allocate_none spm s =
    let full : (spm.used_blocks == subpoolblocks) ≡ true = ground (arith, s.count) in rw full refl

-- In a sub-pool, a call of `spm_allocate_blocks` for as many blocks as are free, or fewer, gives out
-- the first ones of the list, and the rest stays free.
pub spm_allocate_blocks_lem :
    (spm : SubPool) (taken free : List ℕ)
    → IsSubPool spm (taken ++ free)
    → (spm' : SubPool) × (spm_allocate_blocks spm (length taken) ≡ some (some taken, spm'))
      × IsSubPool spm' free
unfolding spm_allocate_blocks
spm_allocate_blocks_lem spm taken free s =
    let (spm', takes, l, used) =
      take_blocks_lem (record spm { used_blocks = (spm.used_blocks + length taken) % 2 ^ 32 }) taken
        free s.linked in
    let enough : ltb ((2 ^ 32 + subpoolblocks - spm.used_blocks) % 2 ^ 32) (length taken) ≡ false =
      ground (arith, s.count, length-append taken free) in
    (
      spm',
      rw (enough, takes) refl,
      record {
        linked = l;
        distinct = IsDistinct-tail taken free s.distinct;
        below = AllBelow-tail subpoolblocks taken free s.below;
        count = omega (arith, used, s.count, length-append taken free);
      },
    )

-- In a sub-pool, a call of `spm_allocate_blocks` for more blocks than are free answers NULL and changes nothing.
pub spm_allocate_blocks_refuses :
    (spm : SubPool) (needs : ℕ) (free : List ℕ)
    → IsSubPool spm free
    → length free < needs
    → spm_allocate_blocks spm needs ≡ some (none, spm)
unfolding spm_allocate_blocks
spm_allocate_blocks_refuses spm needs free s more =
    let short : ltb ((2 ^ 32 + subpoolblocks - spm.used_blocks) % 2 ^ 32) needs ≡ true =
      ground (arith, s.count) in
    rw short refl

-- What an allocation answers and leaves.
abbrev pub Allocates : SubPool → List ℕ → Option (Option ℕ × SubPool) → Type 0
Allocates spm [] r = r ≡ some (none, spm)
Allocates spm (b ∷ rest) r = (spm' : SubPool) × (r ≡ some (some b, spm')) × IsSubPool spm' rest

-- In a sub-pool, the block that `spm_allocate_block` gives is the first free one, and the others
-- stay free; with none free the answer is NULL and nothing changes.
pub spm_allocate_block_lem :
    (spm : SubPool) (free : List ℕ)
    → IsSubPool spm free
    → Allocates spm free (spm_allocate_block spm)
spm_allocate_block_lem spm [] s = allocate_none spm s
spm_allocate_block_lem spm (b ∷ rest) s = allocate_some spm b rest s

-- A block of a sub-pool that is not free is freed: it stands at the head of the list of free blocks,
-- the others stay as they were, and the next allocation gives it out again.
pub spm_free_block_lem :
    (spm : SubPool) (b : ℕ) (free : List ℕ)
    → IsSubPool spm free
    → b < subpoolblocks
    → has b free ≡ false
    → IsSubPool (spm_free_block spm b) (b ∷ free)
      × ((spm' : SubPool) × (spm_allocate_block (spm_free_block spm b) ≡ some (some b, spm'))
          × IsSubPool spm' free)
spm_free_block_lem spm b free s h out = (back, allocate_some (spm_free_block spm b) b free back)
  where
    back : IsSubPool (spm_free_block spm b) (b ∷ free)
    back =
        unfold spm_free_block in
        (let (l, used) =
            give_block_lem (record spm { used_blocks = (2 ^ 32 + spm.used_blocks - 1) % 2 ^ 32 }) b
              free out s.linked in
          record {
            linked = l;
            distinct = (out, s.distinct);
            below = (h, s.below);
            count =
                omega
                  (arith, used, s.count, length-lt subpoolblocks b free s.below s.distinct h out);
          })

-- A mark on a block changes nothing of what is free.
pub flagged-IsSubPool :
    (spm : SubPool) (free : List ℕ) (b flags : ℕ)
    → IsSubPool spm free
    → IsSubPool
        (record spm {
          buf_list = set_block spm.buf_list b (record (spm.buf_list b) { flags = flags });
        })
        free
flagged-IsSubPool spm free b flags s = record {
  linked =
      Linked-same spm.buf_list
        (set_block spm.buf_list b (record (spm.buf_list b) { flags = flags })) spm.empty_block free
        (λ j m. ground arith) s.linked;
  distinct = s.distinct;
  below = s.below;
  count = s.count;
}
