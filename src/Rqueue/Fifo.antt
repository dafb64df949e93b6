-- ===== src/Rqueue/Fifo.antt =====
-- common/rqueue.c: the ring queue as a queue of nodes, up to the first `qsize` enqueues, and behind
-- them.
use dsm_db.Shared.{
  ℕ, suc, ◌+◌, ◌%◌, ◌≤◌, ◌<◌, ◌≡◌, ◌≢◌, refl, ◌∙◌, ap, true, false, leb, ◌==◌, Option, some, none,
  List, [], ◌∷◌, ◌++◌, length, length-append, if◌then◌else◌, ◌>>=◌, arith,
}
use native.Mathlib.Nat.{mod-eq_of_lt}
use dsm_db.Rqueue.{Rqueue, lfqmaxsize, set_value, rq_create, rq_enqueue, rq_dequeue}

-- From `i` on the cells hold the nodes of the list, none of them NULL, and then only NULL.
abbrev pub Cells : (ℕ → ℕ) → ℕ → List ℕ → Type 0
Cells v i [] = (j : ℕ) → i ≤ j → v j ≡ 0
Cells v i (x ∷ xs) = (v i ≡ x) × (x ≢ 0) × Cells v (i + 1) xs

Cells-behind :
    (v : ℕ → ℕ) (i j a : ℕ) (xs : List ℕ) → j < i → Cells v i xs → Cells (set_value v j a) i xs
Cells-behind v i j a [] h c = λ k hk. ground (arith, c k)
Cells-behind v i j a (x ∷ xs) h c =
    (ground (arith, c.0), c.1, Cells-behind v (i + 1) j a xs (omega arith) c.2)

free_cell : (v : ℕ → ℕ) (i : ℕ) (xs : List ℕ) → Cells v i xs → v (i + length xs) ≡ 0
free_cell v i [] c = c (i + 0) (omega arith)
free_cell v i (x ∷ xs) c = ap v (omega arith) ∙ free_cell v (i + 1) xs c.2

Cells-append :
    (v : ℕ → ℕ) (i t node : ℕ) (xs : List ℕ)
    → node ≢ 0
    → t ≡ i + length xs
    → Cells v i xs
    → Cells (set_value v t node) i (xs ++ (node ∷ []))
Cells-append v i t node [] ne e c = (ground arith, ne, λ j h. ground (arith, c j))
Cells-append v i t node (x ∷ xs) ne e c =
    (ground (arith, c.0), c.1, Cells-append v (i + 1) t node xs ne (omega arith) c.2)

-- A queue that has not come round yet, and what is in it.
pub record Holds (rq : Rqueue) (xs : List ℕ) : Type 0 where
  pub cells : Cells rq.qvalues rq.head xs
  pub count : rq.tail ≡ rq.head + length xs
  pub bound : rq.tail ≤ rq.qsize
  pub room : rq.qsize ≤ rq.allocated

pub rq_create-Holds : (n : ℕ) → Holds (rq_create n) []
unfolding rq_create
rq_create-Holds n = record {
  cells = λ j h. refl;
  count = refl;
  bound = omega arith;
  room = ground arith;
}

-- The sizes of a queue that is new.
rq_create_size :
    (n : ℕ)
    → n ≤ lfqmaxsize
    → ((rq_create n).qsize ≡ n) × ((rq_create n).allocated ≡ n) × ((rq_create n).tail ≡ 0)
unfolding rq_create
rq_create_size n h = (ground arith, refl, refl)

pub rq_enqueue_lem :
    (rq : Rqueue) (xs : List ℕ) (node : ℕ)
    → Holds rq xs
    → node ≢ 0
    → rq.tail < rq.qsize
    → (rq' : Rqueue) × (rq_enqueue rq node ≡ some (true, rq'))
      × Holds rq' (xs ++ (node ∷ []))
      × (rq'.tail ≡ rq.tail + 1)
      × (rq'.qsize ≡ rq.qsize)
      × (rq'.allocated ≡ rq.allocated)
unfolding rq_enqueue
rq_enqueue_lem rq xs node h ne lt =
    let wrap : rq.tail % rq.qsize ≡ rq.tail = mod-eq_of_lt lt in
    let fits : leb rq.allocated rq.tail ≡ false = ground (arith, h.room) in
    let free : (rq.qvalues rq.tail == 0) ≡ true =
      ground (arith, ap rq.qvalues h.count ∙ free_cell rq.qvalues rq.head xs h.cells) in
    (
      record rq { tail = rq.tail % rq.qsize + 1; qvalues = set_value rq.qvalues rq.tail node },
      rw (fits, free) refl,
      record {
        cells = Cells-append rq.qvalues rq.head rq.tail node xs ne h.count h.cells;
        count = omega (arith, h.count, length-append xs (node ∷ []), wrap);
        bound = omega (arith, wrap);
        room = h.room;
      },
      omega (arith, wrap),
      refl,
      refl,
    )

pub rq_dequeue_lem :
    (rq : Rqueue) (x : ℕ) (xs : List ℕ)
    → Holds rq (x ∷ xs)
    → (rq' : Rqueue) × (rq_dequeue rq ≡ some (x, rq'))
      × Holds rq' xs
      × (rq'.tail ≡ rq.tail)
      × (rq'.qsize ≡ rq.qsize)
unfolding rq_dequeue
rq_dequeue_lem rq x xs h =
    let wrap : rq.head % rq.qsize ≡ rq.head = mod-eq_of_lt (omega (arith, h.count, h.bound)) in
    let fits : leb rq.allocated rq.head ≡ false = ground (arith, h.room, h.count, h.bound) in
    let there : (rq.qvalues rq.head == 0) ≡ false = ground (arith, h.cells.0, h.cells.1) in
    (
      record rq { head = rq.head % rq.qsize + 1; qvalues = set_value rq.qvalues rq.head 0 },
      rw (fits, there)
          (ap
            (λ y. some (
              y,
              record rq { head = rq.head % rq.qsize + 1; qvalues = set_value rq.qvalues rq.head 0 },
            ))
            h.cells.0),
      record {
        cells =
            rw wrap (Cells-behind rq.qvalues (rq.head + 1) rq.head 0 xs (omega arith) h.cells.2);
        count = omega (arith, h.count, h.bound, wrap);
        bound = h.bound;
        room = h.room;
      },
      refl,
      refl,
    )

pub rq_dequeue_none :
    (rq : Rqueue) → Holds rq [] → rq.tail < rq.qsize → rq_dequeue rq ≡ some (0, rq)
unfolding rq_dequeue
rq_dequeue_none rq h lt = ground (arith, h.room, h.count, h.cells rq.head)

-- What a caller asks of the queue.
pub data Request : Type 0 where
  put : ℕ → Request
  take : Request

abbrev pub puts : List Request → ℕ
puts [] = 0
puts (put x ∷ rs) = suc (puts rs)
puts (take ∷ rs) = puts rs

-- The nodes that are put are not NULL.
abbrev pub IsPointers : List Request → Type 0
IsPointers [] = Unit
IsPointers (put x ∷ rs) = (x ≢ 0) × IsPointers rs
IsPointers (take ∷ rs) = IsPointers rs

-- The answers of a queue: 1 for a node that is put, the first node for a take, or NULL.
unfoldable pub serve_fifo : List ℕ → List Request → List ℕ
serve_fifo xs [] = []
serve_fifo xs (put x ∷ rs) = 1 ∷ serve_fifo (xs ++ (x ∷ [])) rs
serve_fifo [] (take ∷ rs) = 0 ∷ serve_fifo [] rs
serve_fifo (x ∷ xs) (take ∷ rs) = x ∷ serve_fifo xs rs

-- The answers of the calls.
unfoldable pub serve_rqueue : Rqueue → List Request → Option (List ℕ)
serve_rqueue rq [] = some []
serve_rqueue rq (put x ∷ rs) = do
  (accepted, rq') ← rq_enqueue rq x
  answers ← serve_rqueue rq' rs
  some ((if accepted then 1 else 0) ∷ answers)
serve_rqueue rq (take ∷ rs) = do
  (node, rq') ← rq_dequeue rq
  answers ← serve_rqueue rq' rs
  some (node ∷ answers)

serve-Holds :
    (rq : Rqueue) (xs : List ℕ) (rs : List Request)
    → Holds rq xs
    → IsPointers rs
    → rq.tail + puts rs < rq.qsize
    → serve_rqueue rq rs ≡ some (serve_fifo xs rs)
unfolding serve_rqueue serve_fifo
serve-Holds rq xs [] h p lt = refl
serve-Holds rq xs (put x ∷ rs) h p lt =
    let (rq', enq, h', tail, size, _) = rq_enqueue_lem rq xs x h p.0 (omega arith) in
    rw (enq, serve-Holds rq' (xs ++ (x ∷ [])) rs h' p.1 (omega arith)) refl
serve-Holds rq [] (take ∷ rs) h p lt =
    rw (rq_dequeue_none rq h (omega arith), serve-Holds rq [] rs h p lt) refl
serve-Holds rq (x ∷ xs) (take ∷ rs) h p lt =
    let (rq', deq, h', tail, size) = rq_dequeue_lem rq x xs h in
    rw (deq, serve-Holds rq' xs rs h' p (omega arith)) refl

-- A new queue for `n` nodes, `n` at most 1024, that is asked for fewer than `n` puts of nodes, none
-- of them NULL, and for any number of takes between them, answers as a queue does: no access is
-- behind the cells, every node is accepted, and the nodes come out in the order they went in.
pub rq_create-serves :
    (n : ℕ) (rs : List Request)
    → n ≤ lfqmaxsize
    → IsPointers rs
    → puts rs < n
    → serve_rqueue (rq_create n) rs ≡ some (serve_fifo [] rs)
rq_create-serves n rs small p lt =
    serve-Holds (rq_create n) [] rs (rq_create-Holds n) p (omega (arith, rq_create_size n small))

-- The nodes of a list, put one by one.
unfoldable pub put_all : Rqueue → List ℕ → Option Rqueue
put_all rq [] = some rq
put_all rq (x ∷ xs) = do (_, rq') ← rq_enqueue rq x; put_all rq' xs

abbrev pub NonNull : List ℕ → Type 0
NonNull [] = Unit
NonNull (x ∷ xs) = (x ≢ 0) × NonNull xs

put_all_fills :
    (rq : Rqueue) (ys xs : List ℕ) (node : ℕ)
    → Holds rq ys
    → NonNull xs
    → rq.tail + length xs ≡ rq.qsize
    → rq.qsize ≡ rq.allocated
    → (rq' : Rqueue) × (put_all rq xs ≡ some rq') × (rq_enqueue rq' node ≡ none)
unfolding put_all rq_enqueue
put_all_fills rq ys [] node h p full size =
    let outside : leb rq.allocated rq.tail ≡ true = ground arith in (rq, refl, rw outside refl)
put_all_fills rq ys (x ∷ xs) node h p full size =
    let (rq', enq, h', tail, qsize, allocated) = rq_enqueue_lem rq ys x h p.0 (omega arith) in
    let (rq'', puts', out) =
      put_all_fills rq' (ys ++ (x ∷ [])) xs node h' p.1 (omega arith) (omega arith) in
    (rq'', rw (enq, puts') refl, out)

-- A new queue for `n` nodes, `n` at most 1024, accepts `n` nodes, none of them NULL, and the call
-- of `rq_enqueue` that comes next reads behind the allocated cells.
pub rq_enqueue_overflow :
    (n : ℕ) (xs : List ℕ) (node : ℕ)
    → n ≤ lfqmaxsize
    → NonNull xs
    → length xs ≡ n
    → (rq' : Rqueue) × (put_all (rq_create n) xs ≡ some rq') × (rq_enqueue rq' node ≡ none)
rq_enqueue_overflow n xs node small p e =
    put_all_fills (rq_create n) [] xs node (rq_create-Holds n) p
      (omega (arith, rq_create_size n small)) (omega (arith, rq_create_size n small))
