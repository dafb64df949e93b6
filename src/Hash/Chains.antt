-- ===== src/Hash/Chains.antt =====
-- common/hash_table.c: the chain of one bucket.
use dsm_db.Shared.{
  ℕ, ◌≡◌, inl, inr, refl, ◌∙◌, sym, ap, true, false, if◌then◌else◌, some, none, [], ◌∷◌, arith,
  Bool-cases,
}
use dsm_db.Hash.{Name, same_name, Chain, null, wild, node, search_chain, push_chain, pop_chain}

pub same_name_refl : (a : Name) → same_name a a ≡ true
unfolding same_name
same_name_refl [] = refl
same_name_refl (x ∷ xs) = ground (arith, same_name_refl xs)

pub eq-same_name : (a b : Name) → same_name a b ≡ true → a ≡ b
unfolding same_name
eq-same_name [] [] h = refl
eq-same_name [] (y ∷ ys) h = absurd (ground arith)
eq-same_name (x ∷ xs) [] h = absurd (ground arith)
eq-same_name (x ∷ xs) (y ∷ ys) h = ground (arith, eq-same_name xs ys)

pub same_name_comm : (a b : Name) → same_name a b ≡ same_name b a
unfolding same_name
same_name_comm [] [] = refl
same_name_comm [] (y ∷ ys) = refl
same_name_comm (x ∷ xs) [] = refl
same_name_comm (x ∷ xs) (y ∷ ys) = ground (arith, same_name_comm xs ys)

-- No pointer is wild, and no name stands twice.
abbrev pub IsChain : Chain → Type 0
IsChain null = Unit
IsChain wild = ⊥
IsChain (node k b rest) = (search_chain rest k ≡ some none) × IsChain rest

pub search-pop_chain :
    (c : Chain) (s : Name)
    → IsChain c
    → (c' : Chain) × (pop_chain c s ≡ some c')
      × ((k : Name) → search_chain c' k ≡ (if same_name k s then some none else search_chain c k))
      × IsChain c'
unfolding search_chain pop_chain
search-pop_chain null s h = (null, refl, λ k. ground arith, tt)
search-pop_chain wild s h = absurd h
search-pop_chain (node x b rest) s h = elim (Bool-cases (same_name x s)) [
  | inl e ↦ (rest, rw e refl, first e, h.1)
  | inr e ↦
      let (c', pops, law, chain) = search-pop_chain rest s h.1 in
      (node x b c', rw (e, pops) refl, behind e c' law, (law x ∙ rw e h.0, chain))
]
  where
    first :
        same_name x s ≡ true
        → (k : Name)
        → search_chain rest k ≡ (
            if same_name k s
            then some none
            else if same_name x k
            then some (some b)
            else search_chain rest k)
    first e k = elim (Bool-cases (same_name k s)) [
      | inl q ↦ rw q (ap (search_chain rest) (eq-same_name k s q ∙ sym (eq-same_name x s e)) ∙ h.0)
      | inr q ↦ rw (q, ap (λ y. same_name y k) (eq-same_name x s e) ∙ same_name_comm s k ∙ q) refl
    ]

    behind :
        same_name x s ≡ false
        → (c' : Chain)
        → ((k : Name)
            → search_chain c' k ≡ (if same_name k s then some none else search_chain rest k))
        → (k : Name)
        → (if same_name x k then some (some b) else search_chain c' k) ≡ (
            if same_name k s
            then some none
            else if same_name x k
            then some (some b)
            else search_chain rest k)
    behind e c' law k = elim (Bool-cases (same_name x k)) [
      | inl q ↦ rw (q, ap (λ y. same_name y s) (sym (eq-same_name x k q)) ∙ e) refl
      | inr q ↦ rw q (law k)
    ]

-- A push of a name that is not there.
pub search-push_chain :
    (c : Chain) (s : Name) (b : ℕ)
    → IsChain c
    → search_chain c s ≡ some none
    → (push_chain null c s b ≡ some (node s b c)) × IsChain (node s b c)
unfolding push_chain search_chain
search-push_chain null s b h out = (refl, (refl, tt))
search-push_chain wild s b h out = absurd h
search-push_chain (node k d rest) s b h out = (rw (same_name_comm s k ∙ other) refl, (out, h))
  where
    other : same_name k s ≡ false
    other = elim (Bool-cases (same_name k s)) [
      | inl e ↦ absurd (cc (out, ap (λ t. if t then some (some d) else search_chain rest s) e))
      | inr e ↦ e
    ]
