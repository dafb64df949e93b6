-- ===== src/Pool/Blocks/Free.antt =====
-- src/pool/pool.c: the list of the free blocks of a sub-pool.
use dsm_db.Shared.{
  ℕ, ◌≡◌, refl, ◌∙◌, sym, ap, subst, true, false, ◌==◌, Option, some, none, List, [], ◌∷◌, ◌++◌,
  has, length, arith, ==_refl, Bool-cases, inl, inr,
}
use dsm_db.Pool.Blocks.{Block, SubPool, set_block, occupyset, take_block, take_blocks, give_block}

-- The list from a block on, by the links.
abbrev pub Linked : (ℕ → Block) → Option ℕ → List ℕ → Type 0
Linked blocks top [] = top ≡ none
Linked blocks top (b ∷ bs) = (top ≡ some b) × Linked blocks (blocks b).next_empty bs

pub Linked-same :
    (blocks blocks' : ℕ → Block) (top : Option ℕ) (bs : List ℕ)
    → ((j : ℕ) → has j bs ≡ true → (blocks' j).next_empty ≡ (blocks j).next_empty)
    → Linked blocks top bs
    → Linked blocks' top bs
Linked-same blocks blocks' top [] h l = l
Linked-same blocks blocks' top (b ∷ bs) h l = (
  l.0,
  subst (λ t. Linked blocks' t bs) (sym (h b (ground arith)))
      (Linked-same blocks blocks' (blocks b).next_empty bs (λ j m. h j (ground arith)) l.1),
)

-- A block is taken from the head of the list.
pub take_block_lem :
    (spm : SubPool) (b : ℕ) (bs : List ℕ)
    → Linked spm.buf_list spm.empty_block (b ∷ bs)
    → (spm' : SubPool) × (take_block spm ≡ some (b, spm'))
      × Linked spm'.buf_list spm'.empty_block bs
      × (spm'.used_blocks ≡ spm.used_blocks)
unfolding take_block
take_block_lem spm b bs l = (
  taken,
  rw l.0 refl,
  Linked-same spm.buf_list taken.buf_list (spm.buf_list b).next_empty bs (λ j m. ground arith) l.1,
  refl,
)
  where
    taken : SubPool
    taken = record spm {
      buf_list =
          set_block spm.buf_list b
            (record (spm.buf_list b) { flags = occupyset (spm.buf_list b).flags });
      empty_block = (spm.buf_list b).next_empty;
    }

pub take_blocks_lem :
    (spm : SubPool) (taken bs : List ℕ)
    → Linked spm.buf_list spm.empty_block (taken ++ bs)
    → (spm' : SubPool) × (take_blocks spm (length taken) ≡ some (taken, spm'))
      × Linked spm'.buf_list spm'.empty_block bs
      × (spm'.used_blocks ≡ spm.used_blocks)
unfolding take_blocks
take_blocks_lem spm [] bs l = (spm, refl, l, refl)
take_blocks_lem spm (b ∷ taken) bs l =
    let (spm', takes, l', used) = take_block_lem spm b (taken ++ bs) l in
    let (spm'', takes', l'', used') = take_blocks_lem spm' taken bs l' in
    (spm'', rw (takes, takes') refl, l'', used' ∙ used)

-- A block that is not in the list goes to its head.
pub give_block_lem :
    (spm : SubPool) (b : ℕ) (bs : List ℕ)
    → has b bs ≡ false
    → Linked spm.buf_list spm.empty_block bs
    → Linked (give_block spm b).buf_list (give_block spm b).empty_block (b ∷ bs)
      × ((give_block spm b).used_blocks ≡ spm.used_blocks)
unfolding give_block
give_block_lem spm b bs out l = (
  (
    refl,
    rw (==_refl b) (Linked-same spm.buf_list (give_block spm b).buf_list spm.empty_block bs same l),
  ),
  refl,
)
  where
    other : (j : ℕ) → has j bs ≡ true → (j == b) ≡ false
    other j m = elim (Bool-cases (j == b)) [
      | inl e ↦ absurd (let e' : j ≡ b = ground arith in ground (arith, ap (λ i. has i bs) e'))
      | inr e ↦ e
    ]

    same :
        (j : ℕ)
        → has j bs ≡ true
        → ((give_block spm b).buf_list j).next_empty ≡ (spm.buf_list j).next_empty
    same j m = rw (other j m) refl
