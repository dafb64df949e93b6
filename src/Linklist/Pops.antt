-- ===== src/Linklist/Pops.antt =====
-- common/linklist.c: the pops at the ends of a list.
use dsm_db.Shared.{
  ℕ, ◌+◌, ◌-◌, ◌%◌, ◌^◌, ◌≡◌, refl, sym, ap, ◌∙◌, subst, false, ◌==◌, some, none, List, [], ◌∷◌,
  ◌++◌, has, length-append, arith, Bool-cases, inl, inr,
}
use dsm_db.Linklist.{
  Nodes, Linked, list_node_init, set_node, set_next, set_prev, list_pop_head, list_pop_tail,
}
use dsm_db.Linklist.Segment.{
  last, Seg-set_node, Seg-split, Seg-set_prev, Seg-set_next, last_snoc, snoc_view, has_append,
  IsDistinct-append, not_in_front, outside_snoc,
}
use dsm_db.Linklist.Pushes.{IsListOf, first_snoc, first_append}

-- A node that is taken out is as `list_node_init` leaves it.
idle_after :
    (h : Nodes) (n : ℕ) (rest : List ℕ)
    → ((b : ℕ) → has b rest ≡ false → (b == n) ≡ false → h b ≡ list_node_init)
    → (b : ℕ) → has b rest ≡ false
    → set_node h n list_node_init b ≡ list_node_init
idle_after h n rest others b out = elim (Bool-cases (b == n)) [
  | inl e ↦ rw e refl
  | inr e ↦ rw e (others b out e)
]

pub list_pop_head_lem :
    (l : Linked) (h : Nodes) (n : ℕ) (xs : List ℕ)
    → IsListOf l h (n ∷ xs)
    → (l' : Linked) × (h' : Nodes) × (list_pop_head l h ≡ some (some n, l', h')) × IsListOf l' h' xs
unfolding list_pop_head
list_pop_head_lem l h n [] is = (
  record { node_count = (l.node_count + 2 ^ 32 - 1) % 2 ^ 32; head = none; tail = none },
  set_node h n list_node_init,
  rw (is.head) (rw (is.links.1) refl),
  record {
    head = refl;
    tail = refl;
    count = omega (arith, is.count);
    distinct = tt;
    links = tt;
    idle = idle_after h n [] (λ b out e. is.idle b (ground (arith, e)));
  },
)
list_pop_head_lem l h n (a ∷ xs) is =
    let h1 = set_prev h a none in
    let out : has n (a ∷ xs) ≡ false = is.distinct.0 in
    (
      record { node_count = (l.node_count + 2 ^ 32 - 1) % 2 ^ 32; head = some a; tail = l.tail },
      set_node h1 n list_node_init,
      rw (is.head) (rw (is.links.1) refl),
      record {
        head = refl;
        tail = is.tail;
        count = omega (arith, is.count);
        distinct = is.distinct.1;
        links =
            Seg-set_node h1 n list_node_init none (a ∷ xs) none out
              (Seg-set_prev h (some n) none a xs none is.distinct.1.0 is.links.2);
        idle = idle_after h1 n (a ∷ xs) (λ b out' e.
            let e2 : (b == a) ≡ false = ground (arith, out') in
            rw e2 (is.idle b (ground (arith, e, out'))));
      },
    )

beside :
    (b : ℕ) (xs : List ℕ) (n : ℕ)
    → has b xs ≡ false
    → (b == n) ≡ false
    → has b (xs ++ (n ∷ [])) ≡ false
beside b xs n out e = ground (arith, out, e, has_append b xs (n ∷ []))

pop_tail_more :
    (l : Linked) (h : Nodes) (zs : List ℕ) (t n : ℕ)
    → IsListOf l h ((zs ++ (t ∷ [])) ++ (n ∷ []))
    → (l' : Linked) × (h' : Nodes) × (list_pop_tail l h ≡ some (some n, l', h'))
      × IsListOf l' h' (zs ++ (t ∷ []))
unfolding list_pop_tail
pop_tail_more l h zs t n is =
    let xs = zs ++ (t ∷ []) in
    let (c, start) = first_snoc zs t in
    let h1 = set_next h t none in
    let (front, back) = Seg-split h none xs (n ∷ []) none is.links in
    let before : (h n).prev ≡ some t = back.0 ∙ last_snoc none zs t in
    let (distinct, _) = IsDistinct-append xs (n ∷ []) is.distinct in
    let out : has n xs ≡ false = not_in_front xs n is.distinct in
    (
      record { node_count = (l.node_count + 2 ^ 32 - 1) % 2 ^ 32; head = some c; tail = some t },
      set_node h1 n list_node_init,
      rw (is.head, first_append xs (n ∷ []) c (start none))
          (rw (is.tail, last_snoc none xs n) (rw before refl)),
      record {
        head = sym (start none);
        tail = sym (last_snoc none zs t);
        count = omega (arith, is.count, length-append xs (n ∷ []));
        distinct = distinct;
        links =
            Seg-set_node h1 n list_node_init none xs none out
              (Seg-set_next h none zs t (some n) none (not_in_front zs t distinct) front);
        idle = idle_after h1 n xs (λ b out' e.
            let e2 = (outside_snoc b zs t out').1 in rw e2 (is.idle b (beside b xs n out' e)));
      },
    )

pop_tail_snoc :
    (l : Linked) (h : Nodes) (ys : List ℕ) (n : ℕ)
    → IsListOf l h (ys ++ (n ∷ []))
    → (l' : Linked) × (h' : Nodes) × (list_pop_tail l h ≡ some (some n, l', h')) × IsListOf l' h' ys
unfolding list_pop_tail
pop_tail_snoc l h [] n is = (
  record { node_count = (l.node_count + 2 ^ 32 - 1) % 2 ^ 32; head = none; tail = none },
  set_node h n list_node_init,
  rw (is.head) (rw (is.tail) (rw (is.links.0) refl)),
  record {
    head = refl;
    tail = refl;
    count = omega (arith, is.count);
    distinct = tt;
    links = tt;
    idle = idle_after h n [] (λ b out e. is.idle b (ground (arith, e)));
  },
)
pop_tail_snoc l h (a ∷ ys) n is =
    let (zs, t, e) = snoc_view a ys in
    let (l', h', run, is') =
      pop_tail_more l h zs t n (subst (λ x. IsListOf l h (x ++ (n ∷ []))) e is) in
    (l', h', run, subst (IsListOf l' h') (sym e) is')

-- The nodes but the last.
abbrev pub front : List ℕ → List ℕ
front [] = []
front (a ∷ []) = []
front (a ∷ b ∷ xs) = a ∷ front (b ∷ xs)

front_snoc : (ys : List ℕ) (t : ℕ) → front (ys ++ (t ∷ [])) ≡ ys
front_snoc [] t = refl
front_snoc (a ∷ []) t = refl
front_snoc (a ∷ b ∷ ys) t = ap (λ z. a ∷ z) (front_snoc (b ∷ ys) t)

pub list_pop_tail_lem :
    (l : Linked) (h : Nodes) (a : ℕ) (xs : List ℕ)
    → IsListOf l h (a ∷ xs)
    → (l' : Linked) × (h' : Nodes) × (list_pop_tail l h ≡ some (last none (a ∷ xs), l', h'))
      × IsListOf l' h' (front (a ∷ xs))
list_pop_tail_lem l h a xs is =
    let (ys, t, e) = snoc_view a xs in
    let (l', h', run, is') = pop_tail_snoc l h ys t (subst (IsListOf l h) e is) in
    (
      l',
      h',
      run ∙ ap (λ x. some (x, l', h')) (sym (ap (last none) e ∙ last_snoc none ys t)),
      subst (IsListOf l' h') (sym (ap front e ∙ front_snoc ys t)) is',
    )
