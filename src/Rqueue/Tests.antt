-- ===== src/Rqueue/Tests.antt =====
-- A queue for three nodes: a run, and the theorems at inputs that meet their conditions.
use dsm_db.Shared.{◌≡◌, refl, some, List, [], ◌∷◌, arith, true}
use dsm_db.Rqueue.{rq_create, rq_enqueue, rq_dequeue, rq_isempty}
use dsm_db.Rqueue.Fifo.{Request, put, take, serve_fifo, serve_rqueue, rq_create-serves}

abbrev script : List Request
script = take ∷ put 5 ∷ put 6 ∷ take ∷ take ∷ take ∷ []

script_answers : serve_rqueue (rq_create 3) script ≡ some (0 ∷ 1 ∷ 1 ∷ 5 ∷ 6 ∷ 0 ∷ [])
unfolding serve_rqueue rq_create rq_enqueue rq_dequeue
script_answers = refl

new_isempty : rq_isempty (rq_create 3) ≡ some true
unfolding rq_isempty rq_create
new_isempty = refl

rq_create-serves_example : serve_rqueue (rq_create 3) script ≡ some (serve_fifo [] script)
rq_create-serves_example =
    rq_create-serves 3 script (omega arith) (omega arith, (omega arith, tt)) (omega arith)
