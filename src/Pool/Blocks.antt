-- ===== src/Pool/Blocks.antt =====
-- src/pool/pool.c: the blocks of a sub-pool, as `mp_pool_open` lays them out, and
-- `spm_allocate_block`, `spm_allocate_blocks`, `spm_free_block` and `spm_free_blocks`, each of which
-- runs under the lock of the sub-pool. A block is its index in `buf_list`, and NULL is `none` of the
-- inner `Option`; the outer one stands for the use of NULL as a block. The memory behind `tmp` is a
-- number, 0 for NULL, and `freed` lists what was given to free. What these calls do not touch of a
-- block stands elsewhere: its page, its state, its lock and its count of references.
use dsm_db.Shared.{
  ℕ, zero, suc, ◌+◌, ◌-◌, ◌%◌, ◌^◌, bit_or, bit_and, Bool, true, false, ltb, ◌==◌, Option, some,
  none, List, [], ◌∷◌, if◌then◌else◌, ◌>>=◌,
}
pub mod Free
pub mod Laws
mod Tests

abbrev pub subpoolblocks : ℕ
subpoolblocks = 16

pub record Block : Type 0 where
  pub next_empty : Option ℕ
  pub flags : ℕ
  pub priority : ℕ
  pub tmp : ℕ

pub record SubPool : Type 0 where
  pub buf_list : ℕ → Block
  pub used_blocks : ℕ
  pub empty_block : Option ℕ
  pub freed : List ℕ

abbrev pub set_block : (ℕ → Block) → ℕ → Block → ℕ → Block
set_block blocks b x j = if j == b then x else blocks j

-- OCCUPYSET and OCCUPYCLEAR
abbrev pub occupyset : ℕ → ℕ
occupyset flags = bit_or flags 0x10

abbrev pub occupyclear : ℕ → ℕ
occupyclear flags = bit_and flags 0xffff_ffef

-- One sub-pool of `mp_pool_open`
unfoldable pub new_sub_pool : SubPool
new_sub_pool = record {
  buf_list = λ i. record {
    next_empty = if i == subpoolblocks - 1 then none else some (i + 1);
    flags = 0;
    priority = 0;
    tmp = 0;
  };
  used_blocks = 0;
  empty_block = some 0;
  freed = [];
}

-- The head of the list goes out, and is marked.
unfoldable pub take_block : SubPool → Option (ℕ × SubPool)
take_block spm = do
  b ← spm.empty_block
  let block = spm.buf_list b
  some (
    b,
    record spm {
      buf_list = set_block spm.buf_list b (record block { flags = occupyset block.flags });
      empty_block = block.next_empty;
    },
  )

unfoldable pub spm_allocate_block : SubPool → Option (Option ℕ × SubPool)
spm_allocate_block spm = if spm.used_blocks == subpoolblocks then some (none, spm) else (do
  (b, spm') ← take_block (record spm { used_blocks = (spm.used_blocks + 1) % 2 ^ 32 })
  some (some b, spm'))

unfoldable pub take_blocks : SubPool → ℕ → Option (List ℕ × SubPool)
take_blocks spm zero = some ([], spm)
take_blocks spm (suc n) = do
  (b, spm') ← take_block spm
  (bs, spm'') ← take_blocks spm' n
  some (b ∷ bs, spm'')

-- SUBPOOLBLOCKS - spm->used_blocks is unsigned.
unfoldable pub spm_allocate_blocks : SubPool → ℕ → Option (Option (List ℕ) × SubPool)
spm_allocate_blocks spm needs =
    if ltb ((2 ^ 32 + subpoolblocks - spm.used_blocks) % 2 ^ 32) needs
    then some (none, spm)
    else (do
      (bs, spm') ←
          take_blocks (record spm { used_blocks = (spm.used_blocks + needs) % 2 ^ 32 }) needs
      some (some bs, spm'))

-- A block goes back to the head of the list; `tmp` is freed, and not reset.
unfoldable pub give_block : SubPool → ℕ → SubPool
give_block spm b =
    let block = spm.buf_list b in
    record spm {
      buf_list =
          set_block spm.buf_list b
            (record block { next_empty = spm.empty_block; priority = 0; flags = occupyclear 0 });
      empty_block = some b;
      freed = if block.tmp == 0 then spm.freed else block.tmp ∷ spm.freed;
    }

unfoldable pub spm_free_block : SubPool → ℕ → SubPool
spm_free_block spm b =
    give_block (record spm { used_blocks = (2 ^ 32 + spm.used_blocks - 1) % 2 ^ 32 }) b

unfoldable pub give_blocks : SubPool → List ℕ → SubPool
give_blocks spm [] = spm
give_blocks spm (b ∷ bs) = give_blocks (give_block spm b) bs

-- `n` is the length of the list.
unfoldable pub spm_free_blocks : SubPool → List ℕ → ℕ → SubPool
spm_free_blocks spm bs n =
    give_blocks (record spm { used_blocks = (2 ^ 32 + spm.used_blocks - n) % 2 ^ 32 }) bs
