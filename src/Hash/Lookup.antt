-- ===== src/Hash/Lookup.antt =====
-- common/hash_table.c: the table as a map from names to blocks, where a new node's link reads as
-- NULL, and what happens where it does not.
use dsm_db.Shared.{
  ℕ, ◌≡◌, inl, inr, refl, ◌∙◌, ap, false, ◌==◌, if◌then◌else◌, Option, some, none, arith,
  Bool-cases, ==_refl,
}
use dsm_db.Hash.{
  Name, same_name, Chain, null, wild, node, Table, djb2_hash_create, bucket_index, chain_of,
  set_chain, search_chain, djb2_search, push_chain, djb2_push, pop_chain, djb2_pop,
}
use dsm_db.Hash.Chains.{
  same_name_refl, eq-same_name, same_name_comm, IsChain, search-pop_chain, search-push_chain,
}

-- No pointer of the table is wild, and no bucket has a name twice.
abbrev pub IsTable : Table → Type 0
IsTable t = (i : ℕ) → IsChain (t.hash_table i)

pub djb2_hash_create-IsTable : (n : ℕ) → IsTable (djb2_hash_create n)
unfolding djb2_hash_create
djb2_hash_create-IsTable n i = tt

-- A search after the bucket of `s` became `c`, which differs from what it was at most at `s`.
search-set_chain :
    (t : Table) (s k : Name) (c : Chain) (r : Option (Option ℕ))
    → ((k : Name) → search_chain c k ≡ (if same_name k s then r else search_chain (chain_of t s) k))
    → djb2_search (set_chain t (bucket_index t s) c) k
      ≡ (if same_name k s then r else djb2_search t k)
unfolding djb2_search
search-set_chain t s k c r law = elim (Bool-cases (bucket_index t k == bucket_index t s)) [
  | inl q ↦ rw q (
      law k ∙ ap (λ i. if same_name k s then r else search_chain (t.hash_table i) k) (ground arith))
  | inr q ↦ rw (q, other q) refl
]
  where
    other : (bucket_index t k == bucket_index t s) ≡ false → same_name k s ≡ false
    other q = elim (Bool-cases (same_name k s)) [
      | inl e ↦ absurd (ground (arith, q, ap (bucket_index t) (eq-same_name k s e)))
      | inr e ↦ e
    ]

IsTable-set_chain :
    (t : Table) (i : ℕ) (c : Chain) → IsTable t → IsChain c → IsTable (set_chain t i c)
IsTable-set_chain t i c h hc j = elim (Bool-cases (j == i)) [ inl e ↦ rw e hc | inr e ↦ rw e (h j) ]

search-node :
    (s : Name) (b : ℕ) (c : Chain) (k : Name)
    → search_chain (node s b c) k ≡ (if same_name k s then some (some b) else search_chain c k)
unfolding search_chain
search-node s b c k = rw (same_name_comm s k) refl

-- The push of a name that a table does not have, with a node whose link reads as NULL, ends, on
-- a table with no name twice in a bucket and no pointer unwritten. The name is found with the block, every other name is found as before, and no name stands twice.
pub djb2_push_lem :
    (t : Table) (s k : Name) (b : ℕ)
    → IsTable t
    → djb2_search t s ≡ some none
    → (t' : Table) × (djb2_push t null s b ≡ some t')
      × IsTable t'
      × (djb2_search t' k ≡ (if same_name k s then some (some b) else djb2_search t k))
unfolding djb2_push djb2_search
djb2_push_lem t s k b h out =
    let (pushes, chain) = search-push_chain (chain_of t s) s b (h (bucket_index t s)) out in
    (
      set_chain t (bucket_index t s) (node s b (chain_of t s)),
      rw pushes refl,
      IsTable-set_chain t (bucket_index t s) (node s b (chain_of t s)) h chain,
      search-set_chain t s k (node s b (chain_of t s)) (some (some b))
          (search-node s b (chain_of t s)),
    )

-- A pop in a table with no name twice in a bucket and no pointer unwritten ends. The name is not found any more, every other name is
-- found as before, and no name stands twice.
pub djb2_pop_lem :
    (t : Table) (s k : Name)
    → IsTable t
    → (t' : Table) × (djb2_pop t s ≡ some t')
      × IsTable t'
      × (djb2_search t' k ≡ (if same_name k s then some none else djb2_search t k))
unfolding djb2_pop
djb2_pop_lem t s k h =
    let (c, pops, law, chain) = search-pop_chain (chain_of t s) s (h (bucket_index t s)) in
    (
      set_chain t (bucket_index t s) c,
      rw pops refl,
      IsTable-set_chain t (bucket_index t s) c h chain,
      search-set_chain t s k c (some none) law,
    )

-- A name that stands in its bucket behind a node with another name is pushed again, and then
-- popped: the push hides the old block, and the pop brings it back.
pub djb2_push_hides :
    (t : Table) (s x : Name) (b c old : ℕ) (rest : Chain)
    → chain_of t s ≡ node x c rest
    → same_name x s ≡ false
    → search_chain rest s ≡ some (some old)
    → (t' t'' : Table) × (djb2_push t null s b ≡ some t')
      × (djb2_search t' s ≡ some (some b))
      × (djb2_pop t' s ≡ some t'')
      × (djb2_search t'' s ≡ some (some old))
unfolding djb2_push djb2_search djb2_pop push_chain search_chain pop_chain
djb2_push_hides t s x b c old rest here other behind = (
  set_chain t (bucket_index t s) (node s b (node x c rest)),
  set_chain (set_chain t (bucket_index t s) (node s b (node x c rest))) (bucket_index t s)
      (node x c rest),
  rw (here, same_name_comm s x ∙ other) refl,
  rw (==_refl (bucket_index t s), same_name_refl s) refl,
  rw (==_refl (bucket_index t s), same_name_refl s) refl,
  rw (==_refl (bucket_index t s), other) behind,
)

-- The first push in a bucket whose new node has a link that was never written: a search of another
-- name of that bucket follows it.
pub djb2_push_uninitialised :
    (t : Table) (s k : Name) (b : ℕ)
    → chain_of t s ≡ null
    → bucket_index t k ≡ bucket_index t s
    → same_name s k ≡ false
    → (t' : Table) × (djb2_push t wild s b ≡ some t') × (djb2_search t' k ≡ none)
unfolding djb2_push djb2_search push_chain search_chain
djb2_push_uninitialised t s k b empty same other = (
  set_chain t (bucket_index t s) (node s b wild),
  rw empty refl,
  rw (same, ==_refl (bucket_index t s), other) refl,
)
