-- ===== src/Rqueue.antt =====
-- common/rqueue.h and common/rqueue.c: the ring queue of pointers, for one thread at a time. A
-- pointer is a number, NULL is 0, and the cells are a function of the index, with the count of
-- those that were allocated; `none` is an access behind them.
use dsm_db.Shared.{
  ℕ, suc, ◌+◌, ◌%◌, Bool, true, false, ltb, leb, ◌==◌, ◌&&◌, not, Option, some, none, List, [], ◌∷◌,
  ◌++◌, if◌then◌else◌, ◌>>=◌,
}
pub mod Fifo
mod Tests

abbrev pub lfqmaxsize : ℕ
lfqmaxsize = 1024

-- `struct rqueue_s`, without the lock
pub record Rqueue : Type 0 where
  pub head : ℕ
  pub tail : ℕ
  pub qsize : ℕ
  pub allocated : ℕ
  pub qvalues : ℕ → ℕ

abbrev pub set_value : (ℕ → ℕ) → ℕ → ℕ → ℕ → ℕ
set_value v i x j = if j == i then x else v j

unfoldable pub rq_create : ℕ → Rqueue
rq_create size = record {
  head = 0;
  tail = 0;
  qsize = if ltb lfqmaxsize size then lfqmaxsize else size;
  allocated = size;
  qvalues = λ _. 0;
}

unfoldable pub rq_enqueue : Rqueue → ℕ → Option (Bool × Rqueue)
rq_enqueue rq node =
    if leb rq.allocated rq.tail
    then none
    else if not (rq.qvalues rq.tail == 0)
    then some (false, rq)
    else some (
      true,
      record rq { tail = rq.tail % rq.qsize + 1; qvalues = set_value rq.qvalues rq.tail node },
    )

unfoldable pub rq_dequeue : Rqueue → Option (ℕ × Rqueue)
rq_dequeue rq =
    if leb rq.allocated rq.head
    then none
    else if rq.qvalues rq.head == 0
    then some (0, rq)
    else some (
      rq.qvalues rq.head,
      record rq { head = rq.head % rq.qsize + 1; qvalues = set_value rq.qvalues rq.head 0 },
    )

unfoldable pub rq_isempty : Rqueue → Option Bool
rq_isempty rq =
    if not (rq.head == rq.tail)
    then some false
    else if leb rq.allocated rq.head
    then none
    else some (rq.qvalues rq.head == 0)
