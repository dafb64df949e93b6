-- ===== src/Pool/Taken.antt =====
-- src/pool/pool.c: a block that goes from the free ones to a page, and back.
use dsm_db.Shared.{
  ℕ, ◌+◌, ◌*◌, ◌/◌, ◌%◌, ◌<◌, ◌≡◌, ◌≢◌, inl, inr, refl, sym, ap, ◌∙◌, true, false, ◌==◌, List, [],
  ◌∷◌, has, IsDistinct, arith, ==_refl, Bool-cases, has-tail,
}
use dsm_db.Pool.Blocks.{subpoolblocks}
use dsm_db.Pool.Frames.{set_free, IsUsed}
use dsm_db.Pool.Cache.{Entry, blocks_in, AllUsed}

-- The block `c` of the sub-pool `j`, which was the first free one there.
module _ (free : ℕ → List ℕ) (j c : ℕ) (rest : List ℕ) (first : free j ≡ c ∷ rest)
    (small : c < 16) where
  abbrev pub block : ℕ
  block = subpoolblocks * j + c

  pub place : (block / subpoolblocks ≡ j) × (block % subpoolblocks ≡ c)
  place = (omega arith, omega arith)

  -- No block in use is it, and the others stay in use.
  pub IsUsed-apart : (b : ℕ) → IsUsed free b → (b ≢ block) × IsUsed (set_free free j rest) b
  IsUsed-apart b (inside, out) = elim (Bool-cases (b / subpoolblocks == j)) [
    | inl same ↦
        let e : b / subpoolblocks ≡ j = ground arith in
        let out' : has (b % subpoolblocks) (c ∷ rest) ≡ false =
          ap (has (b % subpoolblocks)) (sym first)
          ∙ ap (λ k. has (b % subpoolblocks) (free k)) (sym e)
          ∙ out in
        (
          λ at.
              let t : (b % subpoolblocks == c) ≡ true = ground (arith, at) in
              ground (arith, rw t at out'),
          (inside, rw same (has-tail (b % subpoolblocks) (c ∷ []) rest out')),
        )
    | inr other ↦ (λ at. ground (arith, at), (inside, rw other out))
  ]

  pub block-IsUsed : IsDistinct (c ∷ rest) → j < 4 → IsUsed (set_free free j rest) block
  block-IsUsed d inside = (omega arith, rw (place.0, place.1, ==_refl j) d.0)

  pub others_used :
      (es : List Entry)
      → AllUsed free es
      → (has block (blocks_in es) ≡ false) × AllUsed (set_free free j rest) es
  others_used [] u = (refl, tt)
  others_used (e ∷ es) u =
      let (apart, stays) = IsUsed-apart e.1 u.0 in
      let (out, stay) = others_used es u.1 in
      let ne : (block == e.1) ≡ false = ground (arith, apart) in (rw (ne, out) refl, (stays, stay))

-- The block `b` goes back: the blocks of other pages stay in use.
module _ (free : ℕ → List ℕ) (b : ℕ) where
  abbrev pub back : ℕ → List ℕ
  back = set_free free (b / subpoolblocks) (b % subpoolblocks ∷ free (b / subpoolblocks))

  pub still-IsUsed : (x : ℕ) → x ≢ b → IsUsed free x → IsUsed back x
  still-IsUsed x ne (inside, out) = elim (Bool-cases (x / subpoolblocks == b / subpoolblocks)) [
    | inl same ↦
        let e : x / subpoolblocks ≡ b / subpoolblocks = ground arith in
        let apart : (x % subpoolblocks == b % subpoolblocks) ≡ false = ground (arith, e) in
        (inside, rw (same, apart) (ap (λ k. has (x % subpoolblocks) (free k)) (sym e) ∙ out))
    | inr other ↦ (inside, rw other out)
  ]

  pub all-still-IsUsed :
      (es : List Entry) → has b (blocks_in es) ≡ false → AllUsed free es → AllUsed back es
  all-still-IsUsed [] out u = tt
  all-still-IsUsed (e ∷ es) out u = (
    still-IsUsed e.1 (λ at. ground (arith, at)) u.0,
    all-still-IsUsed es (has-tail b (e.1 ∷ []) (blocks_in es) out) u.1,
  )
