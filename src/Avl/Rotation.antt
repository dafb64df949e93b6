-- ===== src/Avl/Rotation.antt =====
-- common/avl.c: `__do_left` in a search tree.
use dsm_db.Shared.{
  ℕ, ◌+◌, ◌≤◌, ◌<◌, ◌≡◌, ◌⊎◌, inl, inr, refl, sym, ap, ◌∙◌, subst, Bool, true, false, ◌==◌, Option,
  some, none, if◌then◌else◌, ◌>>=◌, Bool-cases, arith,
}
use dsm_db.Avl.{AvlNodes, Avl, set_left, set_right, set_prev, set_prev_of, points_to, hang, do_left}
use dsm_db.Avl.Search.{Shape, tip, fork, top, Stands}
use dsm_db.Avl.Links.{IsBetween, Agree, apart, Off, set_prev_of-Off, heights_Agree}
use dsm_db.Avl.Turned.{
  turned, turned_pivot, turned_x, Outside, parent-Off, top-Off, rotated, px, xp, Off-pivot, Off-x,
  Agree-rotated, left-Stands, right-Stands, middle-Stands, rotated_id,
}

IsBetween-same :
    (h h' : AvlNodes) (lo hi : ℕ) (t : Shape)
    → ((y : ℕ) → (h' y).id ≡ (h y).id)
    → IsBetween h lo hi t
    → IsBetween h' lo hi t
IsBetween-same h h' lo hi tip same b = tt
IsBetween-same h h' lo hi (fork l a r) same b = (
  omega (arith, same a, b.0),
  omega (arith, same a, b.1),
  subst (λ k. IsBetween h' lo k l) (sym (same a)) (IsBetween-same h h' lo (h a).id l same b.2),
  subst (λ k. IsBetween h' (k + 1) hi r) (sym (same a))
      (IsBetween-same h h' ((h a).id + 1) hi r same b.3),
)

-- `x` hangs where the pivot was: at the root, or below the parent on the same side.
abbrev pub Hangs : Avl → Avl → ℕ → ℕ → Option ℕ → Type 0
Hangs t t' pivot x none = t'.root ≡ some x
Hangs t t' pivot x (some q) =
    (t'.root ≡ t.root)
    × (if points_to (t.nodes q).left pivot
        then ((t'.nodes q).left ≡ some x) × ((t'.nodes q).right ≡ (t.nodes q).right)
        else ((t'.nodes q).right ≡ some x) × ((t'.nodes q).left ≡ (t.nodes q).left))

-- The tree after a rotation to the left, by the links before it.
abbrev turn : Avl → ℕ → ℕ → Option ℕ → Option ℕ → Avl
turn t pivot x xl p =
    let h2 = set_right (set_prev (set_left t.nodes x (some pivot)) pivot (some x)) pivot xl in
    record {
      root = (hang t.root (set_prev_of h2 xl pivot) pivot x p).0;
      node_count = t.node_count;
      nodes = rotated t.nodes t.root pivot x xl p;
    }

do_left-turn :
    (t : Avl) (pivot x : ℕ) (xl p : Option ℕ)
    → (t.nodes pivot).right ≡ some x
    → (t.nodes x).left ≡ xl
    → (t.nodes pivot).prev ≡ p
    → do_left t pivot ≡ some (turn t pivot x xl p)
unfolding do_left
do_left-turn t pivot x xl p e0 e1 e2 =
    ap (λ r. r >>= λ y. some (turn t pivot y (t.nodes y).left (t.nodes pivot).prev)) e0
    ∙ ap (λ l. some (turn t pivot x l (t.nodes pivot).prev)) e1
    ∙ ap (λ q. some (turn t pivot x xl q)) e2

hang_parent :
    (root : Option ℕ) (h g : AvlNodes) (pivot x q : ℕ)
    → (q == x) ≡ false
    → g q ≡ h q
    → (let h' = (hang root g pivot x (some q)).1 in
        if points_to (h q).left pivot
        then ((h' q).left ≡ some x) × ((h' q).right ≡ (h q).right)
        else ((h' q).right ≡ some x) × ((h' q).left ≡ (h q).left))
unfolding hang
hang_parent root h g pivot x q ne e =
    let same : (q == q) ≡ true = ground arith in
    let test : points_to (g q).left pivot ≡ points_to (h q).left pivot =
      ap (λ n. points_to n.left pivot) e in
    elim (Bool-cases (points_to (h q).left pivot)) [
      | inl on_left ↦ rw (test, on_left, ne) (rw same (refl, ap (λ n. n.right) e))
      | inr on_right ↦ rw (test, on_right, ne) (rw same (refl, ap (λ n. n.left) e))
    ]

turn-Hangs :
    (t : Avl) (lo hi : ℕ) (p : Option ℕ) (a : Shape) (pivot : ℕ) (b : Shape) (x : ℕ) (c : Shape)
    → IsBetween t.nodes lo hi (fork a pivot (fork b x c))
    → Outside t.nodes lo hi p
    → Hangs t (turn t pivot x (top b) p) pivot x p
unfolding hang
turn-Hangs t lo hi none a pivot b x c order out = refl
turn-Hangs t lo hi (some q) a pivot b x c order out =
    let h = t.nodes in
    let xl = top b in
    let h1 = set_prev (set_left h x (some pivot)) pivot (some x) in
    let g = set_prev_of (set_right h1 pivot xl) xl pivot in
    let np : (q == pivot) ≡ false =
      apart h q pivot (λ e. ground (arith, out, e, order.0, order.1)) in
    let nx : (q == x) ≡ false =
      apart h q x (λ e. ground (arith, out, e, order.3.0, order.3.1, order.0)) in
    let off : Off xl q =
      top-Off h ((h pivot).id + 1) (h x).id b q order.3.2
        (ground (arith, out, order.0, order.3.1)) in
    let as_before : g q ≡ h q =
      set_prev_of-Off (set_right h1 pivot xl) xl pivot q off ∙ rw (np, nx) refl in
    let r = hang_parent t.root h g pivot x q nx as_before in
    let k = heights_Agree (turned h t.root pivot x xl (some q)) pivot x q in
    let g' = turned h t.root pivot x xl (some q) in
    let n' = rotated h t.root pivot x xl (some q) in
    (
      refl,
      hung (g' q).left (n' q).left (g' q).right (n' q).right (some x) (h q).right (h q).left
          (points_to (h q).left pivot) k.0 k.1 r,
    )
  where
    hung :
        (l l' r r' a b d : Option ℕ) (side : Bool)
        → l' ≡ l
        → r' ≡ r
        → (if side then (l ≡ a) × (r ≡ b) else ((r ≡ a) × (l ≡ d)))
        → (if side then (l' ≡ a) × (r' ≡ b) else ((r' ≡ a) × (l' ≡ d)))
    hung l l' r r' a b d true e e' h = (e ∙ h.0, e' ∙ h.1)
    hung l l' r r' a b d false e e' h = (e' ∙ h.0, e ∙ h.1)

-- The rotation to the left at the pivot of a search tree, whose right child is `x`, below a parent whose
-- id is not between the tree's bounds, or at the root. It ends. `x` hangs where the pivot was, over the
-- pivot; the three subtrees are in the same order, with their links; it is a search tree again, in the
-- same bounds; and the links of the nodes outside of the bounds are as before, but for the parent.
pub do_left_lem :
    (t : Avl) (lo hi : ℕ) (p : Option ℕ) (a : Shape) (pivot : ℕ) (b : Shape) (x : ℕ) (c : Shape)
    → IsBetween t.nodes lo hi (fork a pivot (fork b x c))
    → Stands t.nodes p (fork a pivot (fork b x c))
    → Outside t.nodes lo hi p
    → (t' : Avl) × (do_left t pivot ≡ some t')
      × Stands t'.nodes p (fork (fork a pivot b) x c)
      × IsBetween t'.nodes lo hi (fork (fork a pivot b) x c)
      × Hangs t t' pivot x p
      × ((y : ℕ)
          → ((t.nodes y).id < lo) ⊎ (hi ≤ (t.nodes y).id)
          → Off p y
          → Agree t.nodes t'.nodes y)
do_left_lem t lo hi p a pivot b x c order s out =
    let h = t.nodes in
    let xl = top b in
    let h' = rotated h t.root pivot x xl p in
    let g = turned h t.root pivot x xl p in
    let p_x = px h t.root lo hi p a pivot b x c order s out in
    let x_p = xp h t.root lo hi p a pivot b x c order s out in
    let at_pivot =
      turned_pivot h t.root pivot x xl p p_x x_p
        (Off-pivot h t.root lo hi p a pivot b x c order s out)
        (parent-Off h lo hi p pivot out order.0 order.1) in
    let at_x =
      turned_x h t.root pivot x xl p p_x x_p (Off-x h t.root lo hi p a pivot b x c order s out)
        (parent-Off h lo hi p x out (omega (arith, order.0, order.3.0)) order.3.1) in
    let k = heights_Agree g pivot x pivot in
    let m = heights_Agree g pivot x x in
    (
      turn t pivot x xl p,
      do_left-turn t pivot x xl p s.2 s.4.1 s.0,
      (
        m.2 ∙ ap (λ n. n.prev) at_x,
        m.0 ∙ ap (λ n. n.left) at_x,
        m.1 ∙ ap (λ n. n.right) at_x ∙ s.4.2,
        (
          k.2 ∙ ap (λ n. n.prev) at_pivot,
          k.0 ∙ ap (λ n. n.left) at_pivot ∙ s.1,
          k.1 ∙ ap (λ n. n.right) at_pivot,
          left-Stands h t.root lo hi p a pivot b x c order s out,
          middle-Stands h t.root lo hi p a pivot b x c order s out,
        ),
        right-Stands h t.root lo hi p a pivot b x c order s out,
      ),
      IsBetween-same h h' lo hi (fork (fork a pivot b) x c) (rotated_id h t.root pivot x xl p) (
        omega (arith, order.0, order.3.0),
        order.3.1,
        (order.0, omega (arith, order.3.0), order.2, order.3.2),
        order.3.3,
      ),
      turn-Hangs t lo hi p a pivot b x c order out,
      λ y side op.
          Agree-rotated h t.root lo hi p a pivot b x c order s out y
            (ground (arith, side, order.0, order.1, order.3.0, order.3.1)) op,
    )
