-- ===== src/Linklist/Removal.antt =====
-- common/linklist.c: `list_remove_by_addr`.
use dsm_db.Shared.{
  ℕ, ◌≡◌, refl, sym, ap, ◌∙◌, subst, true, false, Option, some, none, List, [], ◌∷◌, ◌++◌, has,
  IsDistinct, arith, Bool-cases, inl, inr, append_nil,
}
use dsm_db.Linklist.{Nodes, Linked, set_next, set_prev, is_at, list_remove_by_addr}
use dsm_db.Linklist.Segment.{
  first, last, Seg, Seg-set_node, Seg-append, Seg-split, Seg-set_prev, Seg-set_next, last_snoc,
  snoc_view, has_append, IsDistinct-append, not_in_front,
}
use dsm_db.Linklist.Pushes.{IsListOf, first_snoc, first_append}

-- The ends and the links of a list; the count is left open.
pub record Links (l : Linked) (h : Nodes) (xs : List ℕ) : Type 0 where
  pub head : l.head ≡ first xs none
  pub tail : l.tail ≡ last none xs
  pub links : Seg h none xs none

-- What is in the second part is not in the first.
apart : (b : ℕ) (xs ys : List ℕ) → IsDistinct (xs ++ ys) → has b ys ≡ true → has b xs ≡ false
apart b [] ys d there = refl
apart b (a ∷ xs) ys d there =
    ground (arith, d.0, there, has_append a xs ys, apart b xs ys d.1 there)

last_append :
    (p : Option ℕ) (xs : List ℕ) (n : ℕ) (ys : List ℕ) → last p (xs ++ (n ∷ ys)) ≡ last (some n) ys
last_append p [] n ys = refl
last_append p (a ∷ xs) n ys = last_append (some a) xs n ys

not_last : (n q : ℕ) (ws : List ℕ) → has n (q ∷ ws) ≡ false → is_at (last (some q) ws) n ≡ false
not_last n q [] out = ground (arith, out)
not_last n q (w ∷ ws) out = not_last n w ws (ground (arith, out))

at_first : (n : ℕ) → is_at (some n) n ≡ true
at_first n = ground arith

-- The node is the first of several.
remove_first :
    (l : Linked) (h : Nodes) (n q : ℕ) (ws : List ℕ)
    → IsListOf l h (n ∷ q ∷ ws)
    → (l' : Linked) × (h' : Nodes) × (list_remove_by_addr l h n ≡ some (l', h'))
      × Links l' h' (q ∷ ws)
      × (l'.node_count ≡ l.node_count)
unfolding list_remove_by_addr
remove_first l h n q ws is =
    let at_head : is_at l.head n ≡ true = ap (λ x. is_at x n) is.head ∙ at_first n in
    let not_tail : is_at l.tail n ≡ false =
      ap (λ x. is_at x n) is.tail ∙ not_last n q ws is.distinct.0 in
    (
      record { node_count = l.node_count; head = some q; tail = l.tail },
      set_prev h q none,
      rw (at_head, not_tail) (rw (is.links.1) refl),
      record {
        head = refl;
        tail = is.tail;
        links = Seg-set_prev h (some n) none q ws none is.distinct.1.0 is.links.2;
      },
      refl,
    )

remove_only :
    (l : Linked) (h : Nodes) (n : ℕ)
    → IsListOf l h (n ∷ [])
    → (l' : Linked) × (h' : Nodes) × (list_remove_by_addr l h n ≡ some (l', h'))
      × Links l' h' []
      × (l'.node_count ≡ l.node_count)
unfolding list_remove_by_addr
remove_only l h n is =
    let at_head : is_at l.head n ≡ true = ap (λ x. is_at x n) is.head ∙ at_first n in
    let at_tail : is_at l.tail n ≡ true = ap (λ x. is_at x n) is.tail ∙ at_first n in
    (
      record { node_count = l.node_count; head = none; tail = none },
      h,
      rw (at_head, at_tail) refl,
      record { head = refl; tail = refl; links = tt },
      refl,
    )

not_first :
    (n c : ℕ) (xs : List ℕ) → has n xs ≡ false → first xs none ≡ some c → is_at (some c) n ≡ false
not_first n c [] out e = absurd (cc e)
not_first n c (a ∷ xs) out e = let same : a ≡ c = cc e in ground (arith, out, same)

-- The node is the last of several.
remove_last :
    (l : Linked) (h : Nodes) (zs : List ℕ) (p n : ℕ)
    → IsListOf l h ((zs ++ (p ∷ [])) ++ (n ∷ []))
    → (l' : Linked) × (h' : Nodes) × (list_remove_by_addr l h n ≡ some (l', h'))
      × Links l' h' (zs ++ (p ∷ []))
      × (l'.node_count ≡ l.node_count)
unfolding list_remove_by_addr
remove_last l h zs p n is =
    let xs = zs ++ (p ∷ []) in
    let (c, start) = first_snoc zs p in
    let out : has n xs ≡ false = not_in_front xs n is.distinct in
    let head : l.head ≡ some c = is.head ∙ first_append xs (n ∷ []) c (start none) in
    let not_head : is_at l.head n ≡ false =
      ap (λ x. is_at x n) head ∙ not_first n c xs out (start none) in
    let at_tail : is_at l.tail n ≡ true =
      ap (λ x. is_at x n) (is.tail ∙ last_snoc none xs n) ∙ at_first n in
    let (front, back) = Seg-split h none xs (n ∷ []) none is.links in
    let before : (h n).prev ≡ some p = back.0 ∙ last_snoc none zs p in
    let (distinct, _) = IsDistinct-append xs (n ∷ []) is.distinct in
    (
      record { node_count = l.node_count; head = l.head; tail = some p },
      set_next h p none,
      rw (not_head, at_tail) (rw before refl),
      record {
        head = head ∙ sym (start none);
        tail = sym (last_snoc none zs p);
        links = Seg-set_next h none zs p (some n) none (not_in_front zs p distinct) front;
      },
      refl,
    )

-- The node stands between two others.
remove_middle :
    (l : Linked) (h : Nodes) (zs : List ℕ) (p n q : ℕ) (ws : List ℕ)
    → IsListOf l h ((zs ++ (p ∷ [])) ++ (n ∷ q ∷ ws))
    → (l' : Linked) × (h' : Nodes) × (list_remove_by_addr l h n ≡ some (l', h'))
      × Links l' h' ((zs ++ (p ∷ [])) ++ (q ∷ ws))
      × (l'.node_count ≡ l.node_count)
unfolding list_remove_by_addr
remove_middle l h zs p n q ws is =
    let xs = zs ++ (p ∷ []) in
    let (c, start) = first_snoc zs p in
    let (dx, dy) = IsDistinct-append xs (n ∷ q ∷ ws) is.distinct in
    let n_out : has n xs ≡ false = apart n xs (n ∷ q ∷ ws) is.distinct (ground arith) in
    let q_out : has q xs ≡ false = apart q xs (n ∷ q ∷ ws) is.distinct (ground arith) in
    let p_out : has p (n ∷ q ∷ ws) ≡ false = p_not_behind zs p (n ∷ q ∷ ws) is.distinct in
    let head : l.head ≡ some c = is.head ∙ first_append xs (n ∷ q ∷ ws) c (start none) in
    let not_head : is_at l.head n ≡ false =
      ap (λ x. is_at x n) head ∙ not_first n c xs n_out (start none) in
    let tail : l.tail ≡ last (some q) ws = is.tail ∙ last_append none xs n (q ∷ ws) in
    let not_tail : is_at l.tail n ≡ false = ap (λ x. is_at x n) tail ∙ not_last n q ws dy.0 in
    let (front, back) = Seg-split h none xs (n ∷ q ∷ ws) none is.links in
    let before : (h n).prev ≡ some p = back.0 ∙ last_snoc none zs p in
    let h1 = set_next h p (some q) in
    (
      l,
      set_prev h1 q (some p),
      rw (not_head, not_tail) (rw (before, back.1) refl),
      record {
        head = head ∙ sym (first_append xs (q ∷ ws) c (start none));
        tail = tail ∙ sym (last_append none xs q ws);
        links =
            Seg-append (set_prev h1 q (some p)) none xs (q ∷ ws) none
              (Seg-set_node h1 q _ none xs (some q) q_out
                (Seg-set_next h none zs p (some n) (some q) (not_in_front zs p dx) front))
              (subst (λ x. Seg (set_prev h1 q (some p)) x (q ∷ ws) none) (sym (last_snoc none zs p))
                (Seg-set_prev h1 (some n) (some p) q ws none dy.1.0
                  (Seg-set_node h p _ (some n) (q ∷ ws) none (ground (arith, p_out)) back.2)));
      },
      refl,
    )
  where
    p_not_behind :
        (zs : List ℕ) (p : ℕ) (ys : List ℕ) → IsDistinct ((zs ++ (p ∷ [])) ++ ys) → has p ys ≡ false
    p_not_behind zs p ys d = elim (Bool-cases (has p ys)) [
      | inl there ↦
          absurd (ground (arith, apart p (zs ++ (p ∷ [])) ys d there, has_append p zs (p ∷ [])))
      | inr out ↦ out
    ]

-- `list_remove_by_addr` of a node of a list takes it out: the ends and the links are those of the other
-- nodes in their order. But the count stays as it was, one too high.
pub list_remove_by_addr_lem :
    (l : Linked) (h : Nodes) (xs : List ℕ) (n : ℕ) (ys : List ℕ)
    → IsListOf l h (xs ++ (n ∷ ys))
    → (l' : Linked) × (h' : Nodes) × (list_remove_by_addr l h n ≡ some (l', h'))
      × Links l' h' (xs ++ ys)
      × (l'.node_count ≡ l.node_count)
list_remove_by_addr_lem l h [] n [] is = remove_only l h n is
list_remove_by_addr_lem l h [] n (q ∷ ws) is = remove_first l h n q ws is
list_remove_by_addr_lem l h (a ∷ xs) n [] is =
    let (zs, p, e) = snoc_view a xs in
    let (l', h', run, links, count) =
      remove_last l h zs p n (subst (λ z. IsListOf l h (z ++ (n ∷ []))) e is) in
    (
      l',
      h',
      run,
      subst (Links l' h') (sym (append_nil (zs ++ (p ∷ []))) ∙ ap (λ z. z ++ []) (sym e)) links,
      count,
    )
list_remove_by_addr_lem l h (a ∷ xs) n (q ∷ ws) is =
    let (zs, p, e) = snoc_view a xs in
    let (l', h', run, links, count) =
      remove_middle l h zs p n q ws (subst (λ z. IsListOf l h (z ++ (n ∷ q ∷ ws))) e is) in
    (l', h', run, subst (λ z. Links l' h' (z ++ (q ∷ ws))) (sym e) links, count)
