-- ===== src/Avl/Tests.antt =====
-- Trees of a few nodes: runs, and the theorem at an input that meets its conditions.
use dsm_db.Shared.{
  ◌≤◌, ◌<◌, ◌⊎◌, ℕ, ◌*◌, ◌≡◌, refl, ◌==◌, Option, some, none, List, [], ◌∷◌, if◌then◌else◌, ◌>>=◌,
  arith,
}
use dsm_db.Avl.{
  AvlNodes, Avl, avl_alloc_node, avl_tree_init, hang, do_left, do_right, rotate, insert_balance,
  hang_below, avl_insert, search_from, avl_search_by_pid,
}
use dsm_db.Avl.Links.{IsBetween, Agree, Off}
use dsm_db.Avl.Rotation.{Hangs, do_left_lem}
use dsm_db.Avl.Search.{Stands, Shape, tip, fork, Answers, avl_search_by_pid-Answers}

program : Unit {0}
unfolding hang do_left do_right rotate insert_balance hang_below avl_insert search_from
    avl_search_by_pid
program = tt

-- The node at an address has ten times the address as its id.
abbrev unlinked : AvlNodes
unlinked a = avl_alloc_node (10 * a)

abbrev insert_all : Avl → List ℕ → Option Avl
insert_all t [] = some t
insert_all t (n ∷ ns) = avl_insert 9 t n >>= λ t'. insert_all t' ns

abbrev root_of : Option Avl → Option ℕ
root_of none = none
root_of (some t) = t.root

-- Three ids in rising, in falling and in mixed order: the middle one comes to the root.
rising : root_of (insert_all (avl_tree_init unlinked) (1 ∷ 2 ∷ 3 ∷ [])) ≡ some 2
unfolding program
rising = refl

falling : root_of (insert_all (avl_tree_init unlinked) (3 ∷ 2 ∷ 1 ∷ [])) ≡ some 2
unfolding program
falling = refl

mixed : root_of (insert_all (avl_tree_init unlinked) (3 ∷ 1 ∷ 2 ∷ [])) ≡ some 2
unfolding program
mixed = refl

abbrev found_in : Option Avl → ℕ → Option (Option ℕ)
found_in none pid = none
found_in (some t) pid = avl_search_by_pid 9 t pid

found_after :
    found_in (insert_all (avl_tree_init unlinked) (5 ∷ 3 ∷ 4 ∷ 1 ∷ 2 ∷ [])) 20 ≡ some (some 2)
unfolding program
found_after = refl

-- 10 and 30 below 20.
abbrev linked : AvlNodes
linked a =
    if a == 1
    then record { height = 1; id = 10; left = none; right = none; prev = some 2 }
    else if a == 2
    then record { height = 2; id = 20; left = some 1; right = some 3; prev = none }
    else record { height = 1; id = 30; left = none; right = none; prev = some 2 }

abbrev three : Avl
three = record { root = some 2; node_count = 3; nodes = linked }

abbrev shape : Shape
shape = fork (fork tip 1 tip) 2 (fork tip 3 tip)

avl_search_by_pid-Answers_example : Answers linked shape 30 (avl_search_by_pid 4 three 30)
avl_search_by_pid-Answers_example =
    avl_search_by_pid-Answers 4 three shape 30 (omega arith) refl
      (refl, refl, refl, (refl, refl, refl, tt, tt), (refl, refl, refl, tt, tt))
      ((omega arith, tt, tt), (omega arith, tt, tt), (tt, tt, tt, tt), (tt, tt, tt, tt))

-- 10 over 20 over 30, to the right.
abbrev leaning : AvlNodes
leaning a =
    if a == 1
    then record { height = 3; id = 10; left = none; right = some 2; prev = none }
    else if a == 2
    then record { height = 2; id = 20; left = none; right = some 3; prev = some 1 }
    else record { height = 1; id = 30; left = none; right = none; prev = some 2 }

abbrev chain : Avl
chain = record { root = some 1; node_count = 3; nodes = leaning }

do_left_lem_example :
    (t' : Avl) × (do_left chain 1 ≡ some t')
    × Stands t'.nodes none (fork (fork tip 1 tip) 2 (fork tip 3 tip))
    × IsBetween t'.nodes 0 100 (fork (fork tip 1 tip) 2 (fork tip 3 tip))
    × Hangs chain t' 1 2 none
    × ((y : ℕ)
        → ((leaning y).id < 0) ⊎ (100 ≤ (leaning y).id)
        → Off none y
        → Agree leaning t'.nodes y)
do_left_lem_example =
    do_left_lem chain 0 100 none tip 1 tip 2 (fork tip 3 tip)
      (
        omega arith,
        omega arith,
        tt,
        (omega arith, omega arith, tt, (omega arith, omega arith, tt, tt)),
      )
      (refl, refl, refl, tt, (refl, refl, refl, tt, (refl, refl, refl, tt, tt))) tt
