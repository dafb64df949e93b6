-- ===== src/Linklist.antt =====
-- common/linklist.h, common/linklist.c: the doubly linked list. Memory is a function from the address
-- to the node, and NULL is `none`. The result is what the call gives, with the list and the memory that
-- it leaves; `none` is a use of NULL.
use dsm_db.Shared.{
  ℕ, zero, suc, ◌+◌, ◌-◌, ◌%◌, ◌^◌, Bool, true, false, ltb, leb, ◌==◌, ◌&&◌, ◌||◌, Option, some,
  none, if◌then◌else◌, ◌>>=◌,
}
pub mod Segment
pub mod Pushes
pub mod Pops
pub mod Deque
pub mod Removal
mod Tests

pub record Node : Type 0 where
  pub next : Option ℕ
  pub prev : Option ℕ

abbrev pub Nodes : Type 0
Nodes = ℕ → Node

pub record Linked : Type 0 where
  pub node_count : ℕ
  pub head : Option ℕ
  pub tail : Option ℕ

abbrev pub list_init : Linked
list_init = record { node_count = 0; head = none; tail = none }

-- list_node_init, of the node at an address
abbrev pub list_node_init : Node
list_node_init = record { next = none; prev = none }

-- Whether the list's memory is given back.
unfoldable pub list_free : Linked → Bool
list_free l = l.node_count == 0

abbrev pub set_node : Nodes → ℕ → Node → Nodes
set_node h a n b = if b == a then n else h b

abbrev pub set_next : Nodes → ℕ → Option ℕ → Nodes
set_next h a p = set_node h a (record { next = p; prev = (h a).prev })

abbrev pub set_prev : Nodes → ℕ → Option ℕ → Nodes
set_prev h a p = set_node h a (record { next = (h a).next; prev = p })

abbrev pub up : ℕ → ℕ
up n = (n + 1) % 2 ^ 32

abbrev pub down : ℕ → ℕ
down n = (n + 2 ^ 32 - 1) % 2 ^ 32

unfoldable pub list_push_tail : Linked → Nodes → ℕ → Option (Linked × Nodes)
list_push_tail l h n = elim l.head [
  | none ↦ some (record { node_count = up l.node_count; head = some n; tail = some n }, h)
  | some first ↦ l.tail >>= λ t. some (
    record { node_count = up l.node_count; head = some first; tail = some n },
    set_prev (set_next h t (some n)) n (some t),
  )
]

unfoldable pub list_push_head : Linked → Nodes → ℕ → Option (Linked × Nodes)
list_push_head l h n = elim l.head [
  | none ↦ some (record { node_count = up l.node_count; head = some n; tail = some n }, h)
  | some first ↦ some (
    record { node_count = up l.node_count; head = some n; tail = l.tail },
    set_next (set_prev h first (some n)) n (some first),
  )
]

-- The node that is taken out, or NULL from an empty list.
unfoldable pub list_pop_head : Linked → Nodes → Option (Option ℕ × Linked × Nodes)
list_pop_head l h = elim l.head [
  | none ↦ some (none, l, h)
  | some n ↦ elim (h n).next [
    | none ↦ some (
      some n,
      record { node_count = down l.node_count; head = none; tail = none },
      set_node h n list_node_init,
    )
    | some first ↦ some (
      some n,
      record { node_count = down l.node_count; head = some first; tail = l.tail },
      set_node (set_prev h first none) n list_node_init,
    )
  ]
]

unfoldable pub list_pop_tail : Linked → Nodes → Option (Option ℕ × Linked × Nodes)
list_pop_tail l h = elim l.head [
  | none ↦ some (none, l, h)
  | some first ↦ l.tail >>= λ n. elim (h n).prev [
    | none ↦ some (
      some n,
      record { node_count = down l.node_count; head = none; tail = none },
      set_node h n list_node_init,
    )
    | some last ↦ some (
      some n,
      record { node_count = down l.node_count; head = some first; tail = some last },
      set_node (set_next h last none) n list_node_init,
    )
  ]
]

-- `n` steps along the list.
unfoldable pub steps : Nodes → ℕ → ℕ → Option ℕ
steps h zero a = some a
steps h (suc n) a = (h a).next >>= λ b. steps h n b

-- The middle of the list: the neighbours are linked, and the count stays.
unfoldable pub list_remove_by_pos : Linked → Nodes → ℕ → Option (Option ℕ × Linked × Nodes)
list_remove_by_pos l h pos =
    let middle : Option (Option ℕ × Linked × Nodes) = (do
      first ← l.head
      n ← steps h (pos - 1) first
      prev ← (h n).prev
      next ← (h n).next
      some (
        some n,
        l,
        set_node (set_prev (set_next h prev (some next)) next (some prev)) n list_node_init,
      )) in
    if ltb l.node_count pos || (pos == 0)
    then some (none, l, h)
    else if pos == 1
    then list_pop_head l h
    else if pos == l.node_count
    then list_pop_tail l h
    else middle

abbrev pub is_at : Option ℕ → ℕ → Bool
is_at none n = false
is_at (some a) n = a == n

unfoldable pub list_remove_by_addr : Linked → Nodes → ℕ → Option (Linked × Nodes)
list_remove_by_addr l h n =
    let first : Option (Linked × Nodes) = (do
      new ← (h n).next
      some (
        record { node_count = l.node_count; head = some new; tail = l.tail },
        set_prev h new none,
      )) in
    let last : Option (Linked × Nodes) = (do
      new ← (h n).prev
      some (
        record { node_count = l.node_count; head = l.head; tail = some new },
        set_next h new none,
      )) in
    let middle : Option (Linked × Nodes) = (do
      prev ← (h n).prev
      next ← (h n).next
      some (l, set_prev (set_next h prev (some next)) next (some prev))) in
    if is_at l.head n && is_at l.tail n
    then some (record { node_count = l.node_count; head = none; tail = none }, h)
    else if is_at l.head n
    then first
    else if is_at l.tail n
    then last
    else middle
