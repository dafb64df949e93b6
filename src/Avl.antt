-- ===== src/Avl.antt =====
-- common/avl.h, common/avl.c: the AVL tree of the open pages, by page id. Memory is a function from
-- the address to the node, and NULL is `none`. A result `none` is a use of NULL, or a loop that is
-- still running when the fuel is out.
use dsm_db.Shared.{
  ℕ, zero, suc, ◌+◌, ◌-◌, ◌%◌, ◌^◌, Bool, true, false, ltb, leb, ◌==◌, not, ◌&&◌, Option, some,
  none, if◌then◌else◌, ◌>>=◌,
}
pub mod Search
pub mod Links
pub mod Turned
pub mod Rotation
mod Tests

pub record AvlNode : Type 0 where
  pub height : ℕ
  pub id : ℕ
  pub left : Option ℕ
  pub right : Option ℕ
  pub prev : Option ℕ

abbrev pub AvlNodes : Type 0
AvlNodes = ℕ → AvlNode

-- The tree, with the memory of its nodes.
pub record Avl : Type 0 where
  pub root : Option ℕ
  pub node_count : ℕ
  pub nodes : AvlNodes

-- avl_alloc_node, but for the object
abbrev pub avl_alloc_node : ℕ → AvlNode
avl_alloc_node id = record { height = 1; id = id; left = none; right = none; prev = none }

abbrev pub avl_tree_init : AvlNodes → Avl
avl_tree_init h = record { root = none; node_count = 0; nodes = h }

abbrev pub put : AvlNodes → ℕ → AvlNode → AvlNodes
put h a n b = if b == a then n else h b

abbrev pub set_left : AvlNodes → ℕ → Option ℕ → AvlNodes
set_left h a p = put h a (record (h a) { left = p })

abbrev pub set_right : AvlNodes → ℕ → Option ℕ → AvlNodes
set_right h a p = put h a (record (h a) { right = p })

abbrev pub set_prev : AvlNodes → ℕ → Option ℕ → AvlNodes
set_prev h a p = put h a (record (h a) { prev = p })

abbrev pub max_of : ℕ → ℕ → ℕ
max_of a b = if ltb b a then a else b

-- _GETHEIGHT
abbrev pub height_of : AvlNodes → Option ℕ → ℕ
height_of h none = 0
height_of h (some a) = (h a).height

-- The height of a node is brought up to date.
abbrev pub set_height : AvlNodes → ℕ → AvlNodes
set_height h a = put h a (record (h a) {
  height = (max_of (height_of h (h a).left) (height_of h (h a).right) + 1) % 2 ^ 32;
})

-- What `__get_diff` is compared with 1 and with -1 for: the left side is higher by two or more, or the
-- right side.
abbrev pub left_heavy : AvlNodes → ℕ → Bool
left_heavy h a = ltb (height_of h (h a).right + 1) (height_of h (h a).left)

abbrev pub right_heavy : AvlNodes → ℕ → Bool
right_heavy h a = ltb (height_of h (h a).left + 1) (height_of h (h a).right)

abbrev pub points_to : Option ℕ → ℕ → Bool
points_to none a = false
points_to (some b) a = b == a

abbrev pub set_prev_of : AvlNodes → Option ℕ → ℕ → AvlNodes
set_prev_of h none a = h
set_prev_of h (some b) a = set_prev h b (some a)

-- `x` takes the place of `pivot` below the parent.
unfoldable pub hang : Option ℕ → AvlNodes → ℕ → ℕ → Option ℕ → Option ℕ × AvlNodes
hang root h pivot x none = (some x, set_prev h x none)
hang root h pivot x (some p) = (
  root,
  set_prev (if points_to (h p).left pivot then set_left h p (some x) else set_right h p (some x)) x
      (some p),
)

unfoldable pub do_left : Avl → ℕ → Option Avl
do_left t pivot = do
  x ← (t.nodes pivot).right
  let x_left = (t.nodes x).left
  let h1 = set_right (set_prev (set_left t.nodes x (some pivot)) pivot (some x)) pivot x_left
  let (root, h2) = hang t.root (set_prev_of h1 x_left pivot) pivot x (t.nodes pivot).prev
  some (record {
    root = root;
    node_count = t.node_count;
    nodes = set_height (set_height h2 pivot) x;
  })

unfoldable pub do_right : Avl → ℕ → Option Avl
do_right t pivot = do
  x ← (t.nodes pivot).left
  let x_right = (t.nodes x).right
  let h1 = set_left (set_prev (set_right t.nodes x (some pivot)) pivot (some x)) pivot x_right
  let (root, h2) = hang t.root (set_prev_of h1 x_right pivot) pivot x (t.nodes pivot).prev
  some (record {
    root = root;
    node_count = t.node_count;
    nodes = set_height (set_height h2 pivot) x;
  })

-- A test of the id of a child that may be NULL.
abbrev pub id_test : AvlNodes → Option ℕ → (ℕ → Bool) → Bool
id_test h none test = false
id_test h (some a) test = test (h a).id

abbrev pub when : Bool → Avl → (Avl → Option Avl) → Option Avl
when true t f = f t
when false t f = some t

-- The four rotations of `__insert_balance`, one after the other, by the heights before them.
unfoldable pub rotate : Avl → ℕ → ℕ → Bool → Bool → Option Avl
rotate t pivot key lefts rights = do
  t1 ←
      when (lefts && id_test t.nodes (t.nodes pivot).left (λ id. ltb key id)) t
        (λ t. do_right t pivot)
  t2 ←
      when (rights && id_test t1.nodes (t1.nodes pivot).right (λ id. ltb id key)) t1
        (λ t. do_left t pivot)
  t3 ←
      when (lefts && id_test t2.nodes (t2.nodes pivot).left (λ id. ltb id key)) t2
        (λ t. (t.nodes pivot).left >>= λ a. do_left t a >>= λ t'. do_right t' pivot)
  when (rights && id_test t3.nodes (t3.nodes pivot).right (λ id. ltb key id)) t3
      (λ t. (t.nodes pivot).right >>= λ a. do_right t a >>= λ t'. do_left t' pivot)

unfoldable pub insert_balance : ℕ → Avl → ℕ → ℕ → Option Avl
insert_balance zero t pivot key = none
insert_balance (suc f) t pivot key = do
  let last = points_to t.root pivot
  let lefts = left_heavy t.nodes pivot
  let rights = right_heavy t.nodes pivot
  t' ← rotate (record t { nodes = set_height t.nodes pivot }) pivot key lefts rights
  let on = ((t'.nodes pivot).prev >>= λ p. insert_balance f t' p key)
  if last then some t' else on

-- The loop of `avl_insert`: the node where the new one is hung, with the memory then.
unfoldable pub hang_below : ℕ → AvlNodes → ℕ → ℕ → Option (ℕ × AvlNodes)
hang_below zero h pivot n = none
hang_below (suc f) h pivot n =
    let below : Option ℕ → AvlNodes → Option (ℕ × AvlNodes) = λ child linked. elim child [
      | none ↦ some (pivot, set_prev linked n (some pivot))
      | some a ↦ hang_below f h a n
    ] in
    if ltb (h n).id (h pivot).id
    then below (h pivot).left (set_left h pivot (some n))
    else below (h pivot).right (set_right h pivot (some n))

unfoldable pub avl_insert : ℕ → Avl → ℕ → Option Avl
avl_insert f t n =
    let count = (t.node_count + 1) % 2 ^ 32 in
    elim t.root [
      | none ↦ some (record { root = some n; node_count = count; nodes = t.nodes })
      | some root ↦ hang_below f t.nodes root n >>= λ r.
          insert_balance f (record { root = some root; node_count = count; nodes = r.1 }) r.0
            (t.nodes n).id
    ]

-- `avl_search_by_pid`, from a node: the inner `none` is NULL.
unfoldable pub search_from : ℕ → AvlNodes → Option ℕ → ℕ → Option (Option ℕ)
search_from zero h pivot pid = none
search_from (suc f) h none pid = some none
search_from (suc f) h (some a) pid =
    let rest = search_from f h (if ltb pid (h a).id then (h a).left else (h a).right) pid in
    if (h a).id == pid then some (some a) else rest

unfoldable pub avl_search_by_pid : ℕ → Avl → ℕ → Option (Option ℕ)
avl_search_by_pid f t pid = search_from f t.nodes t.root pid
