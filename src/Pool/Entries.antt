-- ===== src/Pool/Entries.antt =====
-- src/pool/pool.c: the table of the pages in the pool, as its entries: what is found in it, and what
-- it is without one of them.
use dsm_db.Shared.{
  ℕ, ◌≡◌, ◌≢◌, inl, inr, refl, sym, ap, subst, ◌∙◌, true, false, ◌==◌, Option, some, none, List, [],
  ◌∷◌, has, IsDistinct, arith, ==_refl, has-tail, Bool-cases,
}
use dsm_db.Pool.Table.{Gnode, node_of, set_node, without_node}
use dsm_db.Pool.Frames.{IsUsed}
use dsm_db.Pool.Cache.{Entry, node, nodes, ids_in, blocks_in, block_for, without, AllUsed}

abbrev pub node_found : ℕ → Option ℕ → Option Gnode
node_found id none = none
node_found id (some b) = some (node (id, b))

pub nodes_there : (es : List Entry) → es ≢ [] → nodes es ≢ []
nodes_there [] h e = h refl
nodes_there (x ∷ es) h e = cc e

-- What the table answers, and what it is without a page.
pub node_of-nodes :
    (es : List Entry) (id : ℕ) → node_of (nodes es) id ≡ node_found id (block_for es id)
unfolding node_of
node_of-nodes [] id = refl
node_of-nodes (e ∷ es) id = elim (Bool-cases (e.0 == id)) [
  | inl same ↦ let e' : e.0 ≡ id = ground arith in rw same (ap (λ k. some (node (k, e.1))) e')
  | inr other ↦ rw other (node_of-nodes es id)
]

pub without_node-nodes :
    (es : List Entry) (id : ℕ) → without_node (nodes es) id ≡ nodes (without es id)
unfolding without_node
without_node-nodes [] id = refl
without_node-nodes (e ∷ es) id = elim (Bool-cases (e.0 == id)) [
  | inl same ↦ rw same refl
  | inr other ↦ rw other (ap (λ l. node e ∷ l) (without_node-nodes es id))
]

-- A node whose state is changed is taken out like any other.
pub without_node-set_node :
    (gs : List Gnode) (id state : ℕ) (block : Option ℕ)
    → without_node (set_node gs id block state) id ≡ without_node gs id
unfolding without_node set_node
without_node-set_node [] id state block = refl
without_node-set_node (g ∷ gs) id state block = elim (Bool-cases (g.pid == id)) [
  | inl same ↦ rw (same, ==_refl id) refl
  | inr other ↦ rw (other, other) (ap (λ l. g ∷ l) (without_node-set_node gs id state block))
]

pub block_for-without :
    (es : List Entry) (id k : ℕ) → id ≢ k → block_for (without es id) k ≡ block_for es k
block_for-without [] id k ne = refl
block_for-without (e ∷ es) id k ne = elim (Bool-cases (e.0 == id)) [
  | inl same ↦ let other : (e.0 == k) ≡ false = ground arith in rw (same, other) refl
  | inr apart ↦ rw apart (elim (Bool-cases (e.0 == k)) [
    | inl hit ↦ rw hit refl
    | inr miss ↦ rw miss (block_for-without es id k ne)
  ])
]

pub block_for-none :
    (es : List Entry) (id : ℕ) → has id (ids_in es) ≡ false → block_for es id ≡ none
block_for-none [] id h = refl
block_for-none (e ∷ es) id h =
    let other : (e.0 == id) ≡ false = ground arith in
    rw other (block_for-none es id (has-tail id (e.0 ∷ []) (ids_in es) h))

pub block_for-without_same :
    (es : List Entry) (id : ℕ) → IsDistinct (ids_in es) → block_for (without es id) id ≡ none
block_for-without_same [] id d = refl
block_for-without_same (e ∷ es) id d = elim (Bool-cases (e.0 == id)) [
  | inl same ↦
      let e' : e.0 ≡ id = ground arith in
      rw same (block_for-none es id (ap (λ k. has k (ids_in es)) (sym e') ∙ d.0))
  | inr other ↦ rw (other, other) (block_for-without_same es id d.1)
]

has-without_ids :
    (es : List Entry) (id k : ℕ)
    → has k (ids_in es) ≡ false
    → has k (ids_in (without es id)) ≡ false
has-without_ids [] id k h = refl
has-without_ids (e ∷ es) id k h = elim (Bool-cases (e.0 == id)) [
  | inl same ↦ rw same (has-tail k (e.0 ∷ []) (ids_in es) h)
  | inr other ↦
      let apart : (k == e.0) ≡ false = ground arith in
      rw (other, apart) (has-without_ids es id k (has-tail k (e.0 ∷ []) (ids_in es) h))
]

has-without_blocks :
    (es : List Entry) (id k : ℕ)
    → has k (blocks_in es) ≡ false
    → has k (blocks_in (without es id)) ≡ false
has-without_blocks [] id k h = refl
has-without_blocks (e ∷ es) id k h = elim (Bool-cases (e.0 == id)) [
  | inl same ↦ rw same (has-tail k (e.1 ∷ []) (blocks_in es) h)
  | inr other ↦
      let apart : (k == e.1) ≡ false = ground arith in
      rw (other, apart) (has-without_blocks es id k (has-tail k (e.1 ∷ []) (blocks_in es) h))
]

pub ids-without :
    (es : List Entry) (id : ℕ) → IsDistinct (ids_in es) → IsDistinct (ids_in (without es id))
ids-without [] id d = tt
ids-without (e ∷ es) id d = elim (Bool-cases (e.0 == id)) [
  | inl same ↦ rw same d.1
  | inr other ↦ rw other (has-without_ids es id e.0 d.0, ids-without es id d.1)
]

pub blocks-without :
    (es : List Entry) (id : ℕ) → IsDistinct (blocks_in es) → IsDistinct (blocks_in (without es id))
blocks-without [] id d = tt
blocks-without (e ∷ es) id d = elim (Bool-cases (e.0 == id)) [
  | inl same ↦ rw same d.1
  | inr other ↦ rw other (has-without_blocks es id e.1 d.0, blocks-without es id d.1)
]

-- The block of a page is in use, and no other page has it.
pub IsUsed-block :
    (free : ℕ → List ℕ) (es : List Entry) (id b : ℕ)
    → AllUsed free es
    → block_for es id ≡ some b
    → IsUsed free b
IsUsed-block free [] id b u h = absurd (ground arith)
IsUsed-block free (e ∷ es) id b u h = elim (Bool-cases (e.0 == id)) [
  | inl same ↦ let e' : e.1 ≡ b = cc (rw same at h) in subst (IsUsed free) e' u.0
  | inr other ↦ IsUsed-block free es id b u.1 (rw other at h)
]

pub ids_unknown : (es : List Entry) (id : ℕ) → block_for es id ≡ none → has id (ids_in es) ≡ false
ids_unknown [] id h = refl
ids_unknown (e ∷ es) id h = elim (Bool-cases (e.0 == id)) [
  | inl same ↦ absurd (let h' : some e.1 ≡ none = rw same at h in ground (arith, h'))
  | inr other ↦
      let apart : (id == e.0) ≡ false = ground arith in
      rw (apart, ids_unknown es id (rw other at h)) refl
]

block_listed : (es : List Entry) (id b : ℕ) → block_for es id ≡ some b → has b (blocks_in es) ≡ true
block_listed [] id b h = absurd (ground arith)
block_listed (e ∷ es) id b h = elim (Bool-cases (e.0 == id)) [
  | inl same ↦ let e' : e.1 ≡ b = cc (rw same at h) in rw (e', ==_refl b) refl
  | inr other ↦ ground (arith, block_listed es id b (rw other at h))
]

-- Two pages have two blocks.
pub block_for_apart :
    (es : List Entry)
    → IsDistinct (blocks_in es)
    → (id k b b' : ℕ) → id ≢ k
    → block_for es id ≡ some b
    → block_for es k ≡ some b'
    → b' ≢ b
block_for_apart [] d id k b b' ne h h' same = absurd (ground arith)
block_for_apart (e ∷ es) d id k b b' ne h h' same = elim (Bool-cases (e.0 == id)) [
  | inl first ↦
      let at : e.1 ≡ b = cc (rw first at h) in
      let off : (e.0 == k) ≡ false = ground arith in
      let listed : has b' (blocks_in es) ≡ true = block_listed es k b' (rw off at h') in
      cc (d.0, listed, at, same)
  | inr apart ↦ (elim (Bool-cases (e.0 == k)) [
    | inl second ↦
        let at : e.1 ≡ b' = cc (rw second at h') in
        let listed : has b (blocks_in es) ≡ true = block_listed es id b (rw apart at h) in
        cc (d.0, listed, at, same)
    | inr off ↦ block_for_apart es d.1 id k b b' ne (rw apart at h) (rw off at h') same
  ])
]

-- Without a page, its block is in no entry.
pub block_gone :
    (es : List Entry) (id b : ℕ)
    → IsDistinct (blocks_in es)
    → block_for es id ≡ some b
    → has b (blocks_in (without es id)) ≡ false
block_gone [] id b d h = absurd (ground arith)
block_gone (e ∷ es) id b d h = elim (Bool-cases (e.0 == id)) [
  | inl first ↦
      let at : e.1 ≡ b = cc (rw first at h) in
      rw first (ap (λ x. has x (blocks_in es)) (sym at) ∙ d.0)
  | inr apart ↦
      let listed : has b (blocks_in es) ≡ true = block_listed es id b (rw apart at h) in
      let off : (b == e.1) ≡ false = elim (Bool-cases (b == e.1)) [
        | inl same ↦ absurd (let e' : e.1 ≡ b = ground arith in cc (d.0, listed, e'))
        | inr ne ↦ ne
      ] in
      rw (apart, off) (block_gone es id b d.1 (rw apart at h))
]

pub AllUsed-without :
    (free : ℕ → List ℕ) (es : List Entry) (id : ℕ) → AllUsed free es → AllUsed free (without es id)
AllUsed-without free [] id u = tt
AllUsed-without free (e ∷ es) id u = elim (Bool-cases (e.0 == id)) [
  | inl same ↦ rw same u.1
  | inr other ↦ rw other (u.0, AllUsed-without free es id u.1)
]
