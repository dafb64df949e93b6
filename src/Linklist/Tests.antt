-- ===== src/Linklist/Tests.antt =====
-- A list of nodes: runs, and the theorems at inputs that meet their conditions.
use dsm_db.Shared.{ℕ, ◌≡◌, refl, ◌==◌, Option, some, none, List, [], ◌∷◌, if◌then◌else◌, arith}
use dsm_db.Linklist.{
  Nodes, Linked, list_init, list_node_init, steps, list_remove_by_pos, list_remove_by_addr,
}
use dsm_db.Linklist.Deque.{
  Call, push_tail, push_head, pop_head, pop_tail, serve, answers, list_init-serves,
}
use dsm_db.Linklist.Pushes.{IsListOf}
use dsm_db.Linklist.Removal.{Links, list_remove_by_addr_lem}

abbrev fresh : Nodes
fresh b = list_node_init

abbrev script : List Call
script = push_tail 3 ∷ push_head 1 ∷ push_tail 4 ∷ pop_tail ∷ pop_head ∷ pop_head ∷ pop_head ∷ []

list_init-serves_example : serve list_init fresh script ≡ some (answers [] script)
list_init-serves_example = list_init-serves fresh script (λ b. refl) (refl, (refl, (refl, tt)))

four_pops : answers [] script ≡ some 4 ∷ some 1 ∷ some 3 ∷ none ∷ []
four_pops = refl

-- The nodes 1, 2 and 3.
abbrev three : Linked
three = record { node_count = 3; head = some 1; tail = some 3 }

abbrev linked : Nodes
linked b =
    if b == 1
    then record { next = some 2; prev = none }
    else if b == 2
    then record { next = some 3; prev = some 1 }
    else if b == 3
    then record { next = none; prev = some 2 }
    else list_node_init

abbrev count_after : Option (Option ℕ × Linked × Nodes) → ℕ
count_after none = 0
count_after (some (n, l, h)) = l.node_count

-- The middle node is taken out, and the count stays.
removed_by_pos : count_after (list_remove_by_pos three linked 2) ≡ 3
unfolding list_remove_by_pos steps
removed_by_pos = refl

three-IsListOf : IsListOf three linked (1 ∷ 2 ∷ 3 ∷ [])
three-IsListOf = record {
  head = refl;
  tail = refl;
  count = refl;
  distinct = (refl, (refl, (refl, tt)));
  links = (refl, refl, (refl, refl, (refl, refl, tt)));
  idle = λ b out. ground (arith, out);
}

list_remove_by_addr_lem_example :
    (l' : Linked) × (h' : Nodes) × (list_remove_by_addr three linked 2 ≡ some (l', h'))
    × Links l' h' (1 ∷ 3 ∷ [])
    × (l'.node_count ≡ three.node_count)
list_remove_by_addr_lem_example =
    list_remove_by_addr_lem three linked (1 ∷ []) 2 (3 ∷ []) three-IsListOf
