-- ===== src/Linklist/Pushes.antt =====
-- common/linklist.c: the pushes at the ends of a list.
use dsm_db.Shared.{
  ℕ, ◌+◌, ◌%◌, ◌^◌, ◌≡◌, refl, sym, ap, subst, true, false, ◌==◌, Option, some, none, List, [], ◌∷◌,
  ◌++◌, has, IsDistinct, length, length-append, arith,
}
use dsm_db.Linklist.{
  Nodes, Linked, list_node_init, set_next, set_prev, list_push_tail, list_push_head,
}
use dsm_db.Linklist.Segment.{
  first, last, Seg, Seg-set_node, Seg-append, Seg-set_prev, Seg-set_next, last_snoc, snoc_view,
  IsDistinct-snoc, not_in_front, outside_snoc,
}

-- The list has these nodes, in this order; all others are as `list_node_init` leaves them.
pub record IsListOf (l : Linked) (h : Nodes) (xs : List ℕ) : Type 0 where
  pub head : l.head ≡ first xs none
  pub tail : l.tail ≡ last none xs
  pub count : l.node_count ≡ length xs % 2 ^ 32
  pub distinct : IsDistinct xs
  pub links : Seg h none xs none
  pub idle : (b : ℕ) → has b xs ≡ false → h b ≡ list_node_init

one_node :
    (l : Linked) (h : Nodes) (n : ℕ)
    → IsListOf l h []
    → IsListOf
        (record { node_count = (l.node_count + 1) % 2 ^ 32; head = some n; tail = some n })
        h
        (n ∷ [])
one_node l h n is = record {
  head = refl;
  tail = refl;
  count = omega (arith, is.count);
  distinct = (refl, tt);
  links = (ap (λ x. x.prev) (is.idle n refl), ap (λ x. x.next) (is.idle n refl), tt);
  idle = λ b ne. is.idle b refl;
}

pub first_snoc :
    (ys : List ℕ) (t : ℕ) → (c : ℕ) × ((q : Option ℕ) → first (ys ++ (t ∷ [])) q ≡ some c)
first_snoc [] t = (t, λ q. refl)
first_snoc (c ∷ ys) t = (c, λ q. refl)

pub first_append :
    (xs ys : List ℕ) (c : ℕ) → first xs none ≡ some c → first (xs ++ ys) none ≡ some c
first_append [] ys c e = absurd (cc e)
first_append (a ∷ xs) ys c e = e

push_tail_snoc :
    (l : Linked) (h : Nodes) (ys : List ℕ) (t n : ℕ)
    → IsListOf l h (ys ++ (t ∷ []))
    → has n (ys ++ (t ∷ [])) ≡ false
    → (l' : Linked) × (h' : Nodes) × (list_push_tail l h n ≡ some (l', h'))
      × IsListOf l' h' ((ys ++ (t ∷ [])) ++ (n ∷ []))
unfolding list_push_tail
push_tail_snoc l h ys t n is out =
    let xs = ys ++ (t ∷ []) in
    let (c, start) = first_snoc ys t in
    let h1 = set_next h t (some n) in
    let same : (n == n) ≡ true = ground arith in
    let other : (n == t) ≡ false = (outside_snoc n ys t out).1 in
    (
      record { node_count = (l.node_count + 1) % 2 ^ 32; head = some c; tail = some n },
      set_prev h1 n (some t),
      rw (is.head, start none) (rw (is.tail, last_snoc none ys t) refl),
      record {
        head = sym (first_append xs (n ∷ []) c (start none));
        tail = sym (last_snoc none xs n);
        count = omega (arith, is.count, length-append xs (n ∷ []));
        distinct = IsDistinct-snoc xs n is.distinct out;
        links =
            Seg-append (set_prev h1 n (some t)) none xs (n ∷ []) none
              (Seg-set_node h1 n _ none xs (some n) out
                (Seg-set_next h none ys t none (some n) (not_in_front ys t is.distinct) is.links))
              (
                rw same (sym (last_snoc none ys t)),
                rw (same, other) (ap (λ x. x.next) (is.idle n out)),
                tt,
              );
        idle = λ b ne.
            let (e0, e1) = outside_snoc b xs n ne in
            let e2 = (outside_snoc b ys t e0).1 in rw (e1, e2) (is.idle b e0);
      },
    )

pub list_push_tail_lem :
    (l : Linked) (h : Nodes) (xs : List ℕ) (n : ℕ)
    → IsListOf l h xs
    → has n xs ≡ false
    → (l' : Linked) × (h' : Nodes) × (list_push_tail l h n ≡ some (l', h'))
      × IsListOf l' h' (xs ++ (n ∷ []))
unfolding list_push_tail
list_push_tail_lem l h [] n is out = (
  record { node_count = (l.node_count + 1) % 2 ^ 32; head = some n; tail = some n },
  h,
  rw (is.head) refl,
  one_node l h n is,
)
list_push_tail_lem l h (a ∷ xs) n is out =
    let (ys, t, e) = snoc_view a xs in
    let (l', h', run, is') =
      push_tail_snoc l h ys t n (subst (IsListOf l h) e is) (subst (λ z. has n z ≡ false) e out) in
    (l', h', run, subst (λ z. IsListOf l' h' (z ++ (n ∷ []))) (sym e) is')

pub list_push_head_lem :
    (l : Linked) (h : Nodes) (xs : List ℕ) (n : ℕ)
    → IsListOf l h xs
    → has n xs ≡ false
    → (l' : Linked) × (h' : Nodes) × (list_push_head l h n ≡ some (l', h'))
      × IsListOf l' h' (n ∷ xs)
unfolding list_push_head
list_push_head_lem l h [] n is out = (
  record { node_count = (l.node_count + 1) % 2 ^ 32; head = some n; tail = some n },
  h,
  rw (is.head) refl,
  one_node l h n is,
)
list_push_head_lem l h (a ∷ xs) n is out =
    let same : (n == n) ≡ true = ground arith in
    let h1 = set_prev h a (some n) in
    let other : (n == a) ≡ false = ground (arith, out) in
    (
      record { node_count = (l.node_count + 1) % 2 ^ 32; head = some n; tail = l.tail },
      set_next h1 n (some a),
      rw (is.head) refl,
      record {
        head = refl;
        tail = is.tail;
        count = omega (arith, is.count);
        distinct = (out, is.distinct);
        links = (
          rw (same, other) (ap (λ x. x.prev) (is.idle n out)),
          rw same refl,
          Seg-set_node h1 n _ (some n) (a ∷ xs) none out
              (Seg-set_prev h none (some n) a xs none is.distinct.0 is.links),
        );
        idle = λ b ne.
            let e1 : (b == n) ≡ false = ground (arith, ne) in
            let e2 : (b == a) ≡ false = ground (arith, ne) in
            rw (e1, e2) (is.idle b (ground (arith, ne)));
      },
    )
