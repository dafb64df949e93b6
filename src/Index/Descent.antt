-- ===== src/Index/Descent.antt =====
-- src/interface/interface.c: the descent of `db_1_iinsert`, and the tree after a change of the leaf
-- page that it comes to.
use dsm_db.Shared.{
  ℕ, zero, suc, ◌+◌, ◌-◌, ◌≤◌, ◌<◌, ◌≡◌, ◌≢◌, ◌⊎◌, inl, inr, refl, ◌∙◌, sym, ap, subst, false, leb,
  ◌==◌, some, List, ◌∷◌, length, if◌then◌else◌, arith, Bool-cases, ==_refl,
}
use dsm_db.Page.{page_id_null}
use dsm_db.Blink.Leaf.{Leaf}
use dsm_db.Blink.Pivot.{cpid_at}
use dsm_db.Blink.Pivot.Route.{blink_pivot_scan-Routes}
use dsm_db.Index.{IndexPage, leaf, pivot, Index, Pages, open_page, blinkstacksize}
use dsm_db.Index.Insertion.{descend}
use dsm_db.Index.Represents.{Entries, Span, child_span, IsLeafOf, Represents}
use dsm_db.Index.Search.{within_child}

abbrev pub put_leaf : Pages → ℕ → Leaf → Pages
put_leaf pages q l p = if p == q then some (leaf l) else pages p

abbrev pub Holds : Span → ℕ → Type 0
Holds s key = (s.low ≤ key) × (key ≤ s.high)

-- A leaf page at `q` is changed, at one key that leads to it.
module _ (span : ℕ → Span) (pages : Pages) (q key : ℕ) (l' : Leaf) (m m' : Entries)
    (at_leaf : (span q).height ≡ 0) (here : Holds (span q) key)
    (others : (k : ℕ) → k ≢ key → m' k ≡ m k) where
  not_there : (pid h : ℕ) (s : Span) → span pid ≡ s → s.height ≡ suc h → (pid == q) ≡ false
  not_there pid h s e hs = elim (Bool-cases (pid == q)) [
    | inl same ↦
        let e' : pid ≡ q = ground arith in
        absurd (omega (arith, ap (λ x. x.height) (sym e ∙ ap span e'), at_leaf, hs))
    | inr other ↦ other
  ]

  -- The key does not lead to these pages.
  Represents-off :
      (h pid : ℕ) (s : Span)
      → (key < s.low) ⊎ (s.high < key)
      → Represents span pages h pid s m
      → Represents span (put_leaf pages q l') h pid s m'
  Represents-off zero pid s out (at, height, (l, there, is)) = (
    at,
    height,
    (
      l,
      rw other there,
      record {
        id = is.id;
        sorted = is.sorted;
        bound = is.bound;
        entries =
            λ k low high. is.entries k low high ∙ ap some (sym (others k (λ e. ground arith)));
      },
    ),
  )
    where
      other : (pid == q) ≡ false
      other = elim (Bool-cases (pid == q)) [
        | inl same ↦
            let e' : pid ≡ q = ground arith in
            let same_span : s ≡ span q = sym at ∙ ap span e' in
            absurd (ground (arith, ap (λ x. x.low) same_span, ap (λ x. x.high) same_span))
        | inr ne ↦ ne
      ]
  Represents-off (suc h) pid s out (at, height, (p, there, is, below)) = (
    at,
    height,
    (
      p,
      rw (not_there pid h s at height) there,
      is,
      λ i hi.
          Represents-off h (cpid_at p i) (child_span p s h i)
            (ground (arith, is.within i, is.within (i - 1))) (below i hi),
    ),
  )

abbrev pub Rebuilds : (ℕ → Span) → Pages → ℕ → ℕ → Span → Entries → ℕ → ℕ → Type 0
Rebuilds span pages h pid s m key q =
    (l' : Leaf) (m' : Entries)
    → IsLeafOf l' q (span q) m'
    → ((k : ℕ) → k ≢ key → m' k ≡ m k)
    → Represents span (put_leaf pages q l') h pid s m'

pub descend_lem :
    (span : ℕ → Span) (ix : Index) (f h pid key : ℕ) (s : Span) (m : Entries) (stack : List ℕ)
    → h < f
    → length stack + h ≤ blinkstacksize
    → s.low ≤ key
    → key ≤ s.high
    → Represents span ix.pages h pid s m
    → (page : IndexPage) × (open_page ix pid ≡ some page)
      × ((q : ℕ) × (stack' : List ℕ) × (l : Leaf) × (descend f ix pid page key stack
            ≡ some (some (q, stack')))
          × (ix.pages q ≡ some (leaf l))
          × ((span q).height ≡ 0)
          × Holds (span q) key
          × IsLeafOf l q (span q) m
          × Rebuilds span ix.pages h pid s m key q)
unfolding descend
descend_lem span ix zero h pid key s m stack hf room low high r = absurd (omega arith)
descend_lem span ix (suc f) zero pid key s m stack hf room low high (at, height, (l, there, is)) = (
  leaf l,
  there,
  (
    pid,
    stack,
    l,
    refl,
    there,
    rw at height,
    rw at (low, high),
    rw at is,
    λ l' m' is' others.
        (at, height, (l', rw (==_refl pid) refl, subst (λ t. IsLeafOf l' pid t m') at is')),
  ),
)
descend_lem span ix (suc f) (suc h) pid key s m stack hf room low high
      (at, height, (p, there, is, below)) =
    let (i, route, scan) = blink_pivot_scan-Routes p key is.sorted is.some_there in
    let (low', high') = within_child p s h key i low high route in
    let (page, opened, (q, stack', l, down, at_q, zero_q, here, is_q, rebuild)) =
      descend_lem span ix f h (cpid_at p i) key (child_span p s h i) m (p.pid ∷ stack) (omega arith)
        (omega arith) low' high' (below i route.inside) in
    let named : (cpid_at p i == page_id_null) ≡ false = ground (arith, is.named i route.inside) in
    let fits : leb blinkstacksize (length stack) ≡ false = ground arith in
    (
      pivot p,
      there,
      (
        q,
        stack',
        l,
        rw (scan, fits, named, opened) down,
        at_q,
        zero_q,
        here,
        is_q,
        λ l' m' is' others. (
          at,
          height,
          (
            p,
            rw (not_there span ix.pages q key l' m m' zero_q here others pid h s at height) there,
            is,
            λ j hj. elim (Bool-cases (j == i)) [
              | inl same ↦
                  let e : j ≡ i = ground arith in
                  subst
                    (λ t.
                      Represents span (put_leaf ix.pages q l') h (cpid_at p t) (child_span p s h t)
                        m')
                    (sym e) (rebuild l' m' is' others)
              | inr other ↦
                  Represents-off span ix.pages q key l' m m' zero_q here others h (cpid_at p j)
                    (child_span p s h j)
                    (ground (arith, route.below j, route.above (j - 1), route.inside)) (below j hj)
            ],
          ),
        ),
      ),
    )
