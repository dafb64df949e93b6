-- ===== src/Linklist/Deque.antt =====
-- common/linklist.c: a list that is used at its ends, beside a sequence.
use dsm_db.Shared.{ℕ, ◌≡◌, refl, false, Option, some, none, List, [], ◌∷◌, ◌++◌, has, ◌>>=◌}
use dsm_db.Linklist.{
  Nodes, Linked, list_init, list_node_init, list_push_tail, list_push_head, list_pop_head,
  list_pop_tail,
}
use dsm_db.Linklist.Segment.{last}
use dsm_db.Linklist.Pushes.{IsListOf, list_push_tail_lem, list_push_head_lem}
use dsm_db.Linklist.Pops.{front, list_pop_head_lem, list_pop_tail_lem}

pub data Call : Type 0 where
  push_tail : ℕ → Call
  push_head : ℕ → Call
  pop_head : Call
  pop_tail : Call

-- The nodes that the pops give, NULL among them, for a sequence of calls.
unfoldable pub serve : Linked → Nodes → List Call → Option (List (Option ℕ))
serve l h [] = some []
serve l h (push_tail n ∷ calls) = list_push_tail l h n >>= λ r. serve r.0 r.1 calls
serve l h (push_head n ∷ calls) = list_push_head l h n >>= λ r. serve r.0 r.1 calls
serve l h (pop_head ∷ calls) =
    list_pop_head l h >>= λ r. serve r.1 r.2 calls >>= λ rest. some (r.0 ∷ rest)
serve l h (pop_tail ∷ calls) =
    list_pop_tail l h >>= λ r. serve r.1 r.2 calls >>= λ rest. some (r.0 ∷ rest)

-- The same for a sequence of nodes.
abbrev pub answers : List ℕ → List Call → List (Option ℕ)
answers xs [] = []
answers xs (push_tail n ∷ calls) = answers (xs ++ (n ∷ [])) calls
answers xs (push_head n ∷ calls) = answers (n ∷ xs) calls
answers [] (pop_head ∷ calls) = none ∷ answers [] calls
answers (a ∷ xs) (pop_head ∷ calls) = some a ∷ answers xs calls
answers [] (pop_tail ∷ calls) = none ∷ answers [] calls
answers (a ∷ xs) (pop_tail ∷ calls) = last none (a ∷ xs) ∷ answers (front (a ∷ xs)) calls

-- No node is pushed that is on the list already.
abbrev pub AllFresh : List ℕ → List Call → Type 0
AllFresh xs [] = Unit
AllFresh xs (push_tail n ∷ calls) = (has n xs ≡ false) × AllFresh (xs ++ (n ∷ [])) calls
AllFresh xs (push_head n ∷ calls) = (has n xs ≡ false) × AllFresh (n ∷ xs) calls
AllFresh [] (pop_head ∷ calls) = AllFresh [] calls
AllFresh (a ∷ xs) (pop_head ∷ calls) = AllFresh xs calls
AllFresh [] (pop_tail ∷ calls) = AllFresh [] calls
AllFresh (a ∷ xs) (pop_tail ∷ calls) = AllFresh (front (a ∷ xs)) calls

empty_pops :
    (l : Linked) (h : Nodes)
    → IsListOf l h []
    → (list_pop_head l h ≡ some (none, l, h)) × (list_pop_tail l h ≡ some (none, l, h))
unfolding list_pop_head list_pop_tail
empty_pops l h is = (rw (is.head) refl, rw (is.head) refl)

serve_from :
    (l : Linked) (h : Nodes) (xs : List ℕ) (calls : List Call)
    → IsListOf l h xs
    → AllFresh xs calls
    → serve l h calls ≡ some (answers xs calls)
unfolding serve
serve_from l h xs [] is fresh = refl
serve_from l h xs (push_tail n ∷ calls) is fresh =
    let (l', h', run, is') = list_push_tail_lem l h xs n is fresh.0 in
    rw run (serve_from l' h' (xs ++ (n ∷ [])) calls is' fresh.1)
serve_from l h xs (push_head n ∷ calls) is fresh =
    let (l', h', run, is') = list_push_head_lem l h xs n is fresh.0 in
    rw run (serve_from l' h' (n ∷ xs) calls is' fresh.1)
serve_from l h [] (pop_head ∷ calls) is fresh =
    rw ((empty_pops l h is).0) (rw (serve_from l h [] calls is fresh) refl)
serve_from l h (a ∷ xs) (pop_head ∷ calls) is fresh =
    let (l', h', run, is') = list_pop_head_lem l h a xs is in
    rw run (rw (serve_from l' h' xs calls is' fresh) refl)
serve_from l h [] (pop_tail ∷ calls) is fresh =
    rw ((empty_pops l h is).1) (rw (serve_from l h [] calls is fresh) refl)
serve_from l h (a ∷ xs) (pop_tail ∷ calls) is fresh =
    let (l', h', run, is') = list_pop_tail_lem l h a xs is in
    rw run (rw (serve_from l' h' (front (a ∷ xs)) calls is' fresh) refl)

-- A new list, where all nodes are as `list_node_init` leaves them, is used by pushes and pops at both
-- ends, in any order, and no node is pushed that is on it. Then no call follows a NULL, and the pops
-- give what they would give of a sequence: the node at that end, or NULL when there is none.
pub list_init-serves :
    (h : Nodes) (calls : List Call)
    → ((b : ℕ) → h b ≡ list_node_init)
    → AllFresh [] calls
    → serve list_init h calls ≡ some (answers [] calls)
list_init-serves h calls idle fresh =
    serve_from list_init h [] calls
      (record {
        head = refl;
        tail = refl;
        count = refl;
        distinct = tt;
        links = tt;
        idle = λ b out. idle b;
      })
      fresh
