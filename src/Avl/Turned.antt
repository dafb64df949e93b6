-- ===== src/Avl/Turned.antt =====
-- common/avl.c: the memory that `__do_left` leaves, node by node.
use dsm_db.Shared.{
  ℕ, ◌+◌, ◌≤◌, ◌<◌, ◌≡◌, ◌⊎◌, inl, inr, refl, ap, ◌∙◌, Bool, true, false, ◌==◌, Option, some, none,
  if◌then◌else◌, Bool-cases, arith,
}
use dsm_db.Avl.{
  AvlNode, AvlNodes, put, set_left, set_right, set_prev, set_prev_of, set_height, points_to, hang,
}
use dsm_db.Avl.Search.{Shape, tip, fork, top, Stands}
use dsm_db.Avl.Links.{
  IsBetween, Agree, Stands-Agree, apart, Off, hang-Off, hang_at, set_prev_of-Off, heights_Agree,
}

-- The memory of a rotation, before the heights.
abbrev pub turned : AvlNodes → Option ℕ → ℕ → ℕ → Option ℕ → Option ℕ → AvlNodes
turned h root pivot x xl par =
    (hang root
      (set_prev_of (set_right (set_prev (set_left h x (some pivot)) pivot (some x)) pivot xl) xl
        pivot)
      pivot x par).1

module _ (h : AvlNodes) (root : Option ℕ) (pivot x : ℕ) (xl par : Option ℕ)
    (px : (pivot == x) ≡ false) (xp : (x == pivot) ≡ false) where
  pub turned-Off :
      (y : ℕ)
      → (y == pivot) ≡ false
      → (y == x) ≡ false
      → Off xl y
      → Off par y
      → turned h root pivot x xl par y ≡ h y
  turned-Off y np nx ol op =
      hang-Off root _ pivot x y par nx op ∙ set_prev_of-Off _ xl pivot y ol ∙ rw (np, nx) refl

  pub turned_pivot :
      Off xl pivot
      → Off par pivot
      → turned h root pivot x xl par pivot ≡ record (h pivot) { right = xl; prev = some x }
  turned_pivot ol op =
      let same : (pivot == pivot) ≡ true = ground arith in
      hang-Off root _ pivot x pivot par px op
      ∙ set_prev_of-Off _ xl pivot pivot ol
      ∙ rw (same, px) refl

  pub turned_x :
      Off xl x
      → Off par x
      → turned h root pivot x xl par x ≡ record (h x) { left = some pivot; prev = par }
  turned_x ol op =
      let same : (x == x) ≡ true = ground arith in
      let before : set_prev_of
            (set_right (set_prev (set_left h x (some pivot)) pivot (some x)) pivot xl) xl pivot x
          ≡ record (h x) { left = some pivot } =
        set_prev_of-Off _ xl pivot x ol ∙ rw (xp, same) refl in
      hang_at root _ pivot x par op
      ∙ ap {A = AvlNode} {B = AvlNode} (λ n. record n { prev = par }) before

pub turned_child :
    (h : AvlNodes) (root : Option ℕ) (pivot x b : ℕ) (par : Option ℕ)
    → (b == pivot) ≡ false
    → (b == x) ≡ false
    → Off par b
    → turned h root pivot x (some b) par b ≡ record (h b) { prev = some pivot }
turned_child h root pivot x b par np nx op =
    let same : (b == b) ≡ true = ground arith in
    let before : set_right (set_prev (set_left h x (some pivot)) pivot (some x)) pivot (some b) b
        ≡ h b =
      rw (np, nx) refl in
    hang-Off root _ pivot x b par nx op
    ∙ rw same (ap {A = AvlNode} {B = AvlNode} (λ n. record n { prev = some pivot }) before)

-- The parent is not in the range of the tree.
abbrev pub Outside : AvlNodes → ℕ → ℕ → Option ℕ → Type 0
Outside h lo hi none = Unit
Outside h lo hi (some q) = ((h q).id < lo) ⊎ (hi ≤ (h q).id)

pub parent-Off :
    (h : AvlNodes) (lo hi : ℕ) (p : Option ℕ) (y : ℕ)
    → Outside h lo hi p
    → lo ≤ (h y).id
    → (h y).id < hi
    → Off p y
parent-Off h lo hi none y out low high = tt
parent-Off h lo hi (some q) y out low high = apart h y q (λ e. ground (arith, out, low, high, e))

pub top-Off :
    (h : AvlNodes) (lo hi : ℕ) (t : Shape) (y : ℕ)
    → IsBetween h lo hi t
    → ((h y).id < lo) ⊎ (hi ≤ (h y).id)
    → Off (top t) y
top-Off h lo hi tip y b out = tt
top-Off h lo hi (fork l a r) y b out = apart h y a (λ e. ground (arith, b.0, b.1, out, e))

pub Agree-heights :
    (h g : AvlNodes) (a b y : ℕ) → g y ≡ h y → Agree h (set_height (set_height g a) b) y
Agree-heights h g a b y e =
    let k = heights_Agree g a b y in
    (
      k.0 ∙ ap (λ n. n.left) e,
      k.1 ∙ ap (λ n. n.right) e,
      k.2 ∙ ap (λ n. n.prev) e,
      k.3 ∙ ap (λ n. n.id) e,
    )

-- The memory of a rotation.
abbrev pub rotated : AvlNodes → Option ℕ → ℕ → ℕ → Option ℕ → Option ℕ → AvlNodes
rotated h root pivot x xl p = set_height (set_height (turned h root pivot x xl p) pivot) x

module _ (h : AvlNodes) (root : Option ℕ) (lo hi : ℕ) (p : Option ℕ) (a : Shape) (pivot : ℕ)
    (b : Shape) (x : ℕ) (c : Shape) (order : IsBetween h lo hi (fork a pivot (fork b x c)))
    (s : Stands h p (fork a pivot (fork b x c))) (out : Outside h lo hi p) where
  pub px : (pivot == x) ≡ false
  px = apart h pivot x (λ e. omega (arith, order.3.0, e))

  pub xp : (x == pivot) ≡ false
  xp = apart h x pivot (λ e. omega (arith, order.3.0, e))

  pub Off-pivot : Off (top b) pivot
  Off-pivot = top-Off h ((h pivot).id + 1) (h x).id b pivot order.3.2 (inl (omega arith))

  pub Off-x : Off (top b) x
  Off-x = top-Off h ((h pivot).id + 1) (h x).id b x order.3.2 (inr (omega arith))

  -- The nodes elsewhere, and those below the pivot on the left and below `x` on the right.
  pub Agree-rotated :
      (y : ℕ)
      → ((h y).id < (h pivot).id) ⊎ ((h x).id < (h y).id)
      → Off p y
      → Agree h (rotated h root pivot x (top b) p) y
  Agree-rotated y side op = Agree-heights h (turned h root pivot x (top b) p) pivot x y (
      turned-Off h root pivot x (top b) p px xp y
        (apart h y pivot (λ e. ground (arith, side, e, order.3.0)))
        (apart h y x (λ e. ground (arith, side, e, order.3.0)))
        (top-Off h ((h pivot).id + 1) (h x).id b y order.3.2 (ground (arith, side, order.3.0))) op)

  pub left-Stands : Stands (rotated h root pivot x (top b) p) (some pivot) a
  left-Stands =
      Stands-Agree h (rotated h root pivot x (top b) p) lo (h pivot).id (some pivot) a
        (λ y low high.
          Agree-rotated y (inl high)
            (parent-Off h lo hi p y out low (omega (arith, high, order.1))))
        order.2 s.3

  pub right-Stands : Stands (rotated h root pivot x (top b) p) (some x) c
  right-Stands =
      Stands-Agree h (rotated h root pivot x (top b) p) ((h x).id + 1) hi (some x) c
        (λ y low high.
          Agree-rotated y (inr (omega (arith, low)))
            (parent-Off h lo hi p y out (omega (arith, low, order.3.0, order.0)) high))
        order.3.3 s.4.4

-- The subtree between the two nodes changes its parent.
pub middle-Stands :
    (h : AvlNodes) (root : Option ℕ) (lo hi : ℕ) (p : Option ℕ) (a : Shape) (pivot : ℕ) (b : Shape)
    (x : ℕ) (c : Shape)
    → IsBetween h lo hi (fork a pivot (fork b x c))
    → Stands h p (fork a pivot (fork b x c))
    → Outside h lo hi p
    → Stands (rotated h root pivot x (top b) p) (some pivot) b
middle-Stands h root lo hi p a pivot tip x c order s out = tt
middle-Stands h root lo hi p a pivot (fork l n r) x c order s out =
    let h' = rotated h root pivot x (some n) p in
    let between = order.3.2 in
    let inside : (y : ℕ)
        → (h pivot).id < (h y).id
        → (h y).id < (h x).id
        → (y == n) ≡ false
        → Agree h h' y =
      λ y low high ne. Agree-heights h (turned h root pivot x (some n) p) pivot x y (
        turned-Off h root pivot x (some n) p
          (px h root lo hi p a pivot (fork l n r) x c order s out)
          (xp h root lo hi p a pivot (fork l n r) x c order s out) y
          (apart h y pivot (λ e. omega (arith, low, e))) (apart h y x (λ e. omega (arith, high, e)))
          ne
          (parent-Off h lo hi p y out (omega (arith, low, order.0))
            (omega (arith, high, order.3.1)))) in
    let k = heights_Agree (turned h root pivot x (some n) p) pivot x n in
    let e =
      turned_child h root pivot x n p (apart h n pivot (λ e. omega (arith, between.0, e)))
        (apart h n x (λ e. omega (arith, between.1, e)))
        (parent-Off h lo hi p n out (omega (arith, between.0, order.0))
          (omega (arith, between.1, order.3.1))) in
    (
      k.2 ∙ ap (λ m. m.prev) e,
      k.0 ∙ ap (λ m. m.left) e ∙ s.4.3.1,
      k.1 ∙ ap (λ m. m.right) e ∙ s.4.3.2,
      Stands-Agree h h' ((h pivot).id + 1) (h n).id (some n) l
          (λ y low high.
            inside y (omega (arith, low)) (omega (arith, high, between.1))
              (apart h y n (λ e. omega (arith, high, e))))
          between.2 s.4.3.3,
      Stands-Agree h h' ((h n).id + 1) (h x).id (some n) r
          (λ y low high.
            inside y (omega (arith, low, between.0)) high
              (apart h y n (λ e. omega (arith, low, e))))
          between.3 s.4.3.4,
    )

-- The ids stay.
pub put_id :
    (h : AvlNodes) (a : ℕ) (n : AvlNode) (y : ℕ) → n.id ≡ (h a).id → (put h a n y).id ≡ (h y).id
put_id h a n y e = elim (Bool-cases (y == a)) [
  | inl same ↦ let at : a ≡ y = ground (arith, same) in rw same (e ∙ ap (λ z. (h z).id) at)
  | inr other ↦ rw other refl
]

pub hang_id :
    (root : Option ℕ) (h : AvlNodes) (pivot x : ℕ) (p : Option ℕ) (y : ℕ)
    → ((hang root h pivot x p).1 y).id ≡ (h y).id
unfolding hang
hang_id root h pivot x none y = put_id h x _ y refl
hang_id root h pivot x (some q) y =
    let g : AvlNodes =
      if points_to (h q).left pivot then set_left h q (some x) else set_right h q (some x) in
    put_id g x (record (g x) { prev = some q }) y refl ∙ either (points_to (h q).left pivot)
  where
    either :
        (b : Bool) → ((if b then set_left h q (some x) else set_right h q (some x)) y).id ≡ (h y).id
    either true = put_id h q _ y refl
    either false = put_id h q _ y refl

pub set_prev_of_id : (h : AvlNodes) (b : Option ℕ) (a y : ℕ) → ((set_prev_of h b a) y).id ≡ (h y).id
set_prev_of_id h none a y = refl
set_prev_of_id h (some b) a y = put_id h b _ y refl

pub rotated_id :
    (h : AvlNodes) (root : Option ℕ) (pivot x : ℕ) (xl p : Option ℕ) (y : ℕ)
    → (rotated h root pivot x xl p y).id ≡ (h y).id
rotated_id h root pivot x xl p y =
    let h0 = set_left h x (some pivot) in
    let h1 = set_prev h0 pivot (some x) in
    let h2 = set_right h1 pivot xl in
    (heights_Agree (turned h root pivot x xl p) pivot x y).3
    ∙ hang_id root (set_prev_of h2 xl pivot) pivot x p y
    ∙ set_prev_of_id h2 xl pivot y
    ∙ put_id h1 pivot (record (h1 pivot) { right = xl }) y refl
    ∙ put_id h0 pivot (record (h0 pivot) { prev = some x }) y refl
    ∙ put_id h x (record (h x) { left = some pivot }) y refl
