-- ===== src/Avl/Links.antt =====
-- common/avl.h, common/avl.c: links in a search tree, and what writes of nodes elsewhere leave.
use dsm_db.Shared.{
  ℕ, ◌+◌, ◌≤◌, ◌<◌, ◌≡◌, ◌≢◌, inl, inr, refl, ap, ◌∙◌, Bool, true, false, ◌==◌, Option, some, none,
  if◌then◌else◌, Bool-cases, arith,
}
use dsm_db.Avl.{AvlNode, AvlNodes, put, set_prev_of, set_height, points_to, hang}
use dsm_db.Avl.Search.{Shape, tip, fork, Stands}

-- A search tree whose ids are from `lo` on and below `hi`.
abbrev pub IsBetween : AvlNodes → ℕ → ℕ → Shape → Type 0
IsBetween h lo hi tip = Unit
IsBetween h lo hi (fork l a r) =
    (lo ≤ (h a).id) × ((h a).id < hi) × IsBetween h lo (h a).id l × IsBetween h ((h a).id + 1) hi r

-- The links and the id of a node, in two memories.
abbrev pub Agree : AvlNodes → AvlNodes → ℕ → Type 0
Agree h h' y =
    ((h' y).left ≡ (h y).left)
    × ((h' y).right ≡ (h y).right)
    × ((h' y).prev ≡ (h y).prev)
    × ((h' y).id ≡ (h y).id)

-- A tree does not change if no node with an id of its range does.
pub Stands-Agree :
    (h h' : AvlNodes) (lo hi : ℕ) (p : Option ℕ) (t : Shape)
    → ((y : ℕ) → lo ≤ (h y).id → (h y).id < hi → Agree h h' y)
    → IsBetween h lo hi t
    → Stands h p t
    → Stands h' p t
Stands-Agree h h' lo hi p tip same b s = tt
Stands-Agree h h' lo hi p (fork l a r) same b s =
    let here = same a b.0 b.1 in
    (
      here.2 ∙ s.0,
      here.0 ∙ s.1,
      here.1 ∙ s.2,
      Stands-Agree h h' lo (h a).id (some a) l (λ y low high. same y low (omega (arith, high, b.1)))
          b.2 s.3,
      Stands-Agree h h' ((h a).id + 1) hi (some a) r
          (λ y low high. same y (omega (arith, low, b.0)) high) b.3 s.4,
    )

-- Nodes with different ids are different.
pub apart : (h : AvlNodes) (y a : ℕ) → (h y).id ≢ (h a).id → (y == a) ≡ false
apart h y a ne = elim (Bool-cases (y == a)) [
  | inl e ↦ absurd (ne (ap (λ z. (h z).id) (ground (arith, e))))
  | inr e ↦ e
]

-- A pointer that is not to the node.
abbrev pub Off : Option ℕ → ℕ → Type 0
Off none y = Unit
Off (some a) y = (y == a) ≡ false

pub put_off : (h : AvlNodes) (a : ℕ) (n : AvlNode) (y : ℕ) → (y == a) ≡ false → put h a n y ≡ h y
put_off h a n y e = rw e refl

pub either_off :
    (b : Bool) (h : AvlNodes) (a : ℕ) (m n : AvlNode) (y : ℕ)
    → (y == a) ≡ false
    → (if b then put h a m else put h a n) y ≡ h y
either_off true h a m n y e = put_off h a m y e
either_off false h a m n y e = put_off h a n y e

pub hang-Off :
    (root : Option ℕ) (h : AvlNodes) (pivot x y : ℕ) (p : Option ℕ)
    → (y == x) ≡ false
    → Off p y
    → (hang root h pivot x p).1 y ≡ h y
unfolding hang
hang-Off root h pivot x y none e off = rw e refl
hang-Off root h pivot x y (some q) e off =
    rw e (either_off (points_to (h q).left pivot) h q _ _ y off)

pub hang_at :
    (root : Option ℕ) (h : AvlNodes) (pivot x : ℕ) (p : Option ℕ)
    → Off p x
    → (hang root h pivot x p).1 x ≡ record (h x) { prev = p }
unfolding hang
hang_at root h pivot x none off = let same : (x == x) ≡ true = ground arith in rw same refl
hang_at root h pivot x (some q) off =
    let same : (x == x) ≡ true = ground arith in
    rw same (
      ap {A = AvlNode} {B = AvlNode} (λ n. record n { prev = some q })
        (either_off (points_to (h q).left pivot) h q _ _ x off))

pub set_prev_of-Off : (h : AvlNodes) (b : Option ℕ) (a y : ℕ) → Off b y → set_prev_of h b a y ≡ h y
set_prev_of-Off h none a y off = refl
set_prev_of-Off h (some b) a y off = rw off refl

-- New heights leave the links.
pub height_Agree : (g : AvlNodes) (a y : ℕ) → Agree g (set_height g a) y
height_Agree g a y = elim (Bool-cases (y == a)) [
  | inl e ↦
      let same : a ≡ y = ground (arith, e) in
      (
        rw e (ap (λ z. (g z).left) same),
        rw e (ap (λ z. (g z).right) same),
        rw e (ap (λ z. (g z).prev) same),
        rw e (ap (λ z. (g z).id) same),
      )
  | inr e ↦ (rw e refl, rw e refl, rw e refl, rw e refl)
]

pub heights_Agree : (g : AvlNodes) (a b y : ℕ) → Agree g (set_height (set_height g a) b) y
heights_Agree g a b y =
    let first = height_Agree g a y in
    let second = height_Agree (set_height g a) b y in
    (second.0 ∙ first.0, second.1 ∙ first.1, second.2 ∙ first.2, second.3 ∙ first.3)
