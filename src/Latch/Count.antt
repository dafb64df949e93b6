-- ===== src/Latch/Count.antt =====
-- src/latch/isdlock.c: what the counts of the lock count.
use dsm_db.Shared.{ℕ, ◌+◌, ◌%◌, ◌≡◌, refl, sym, ap, ◌∙◌, List, [], ◌∷◌, arith}
use dsm_db.Latch.{Lock, Place, Moves, Step, Steps, isd_init}
use dsm_db.Latch.Place.{outside, is_inside, d_inside, d_opened}
use dsm_db.Latch.Step.{here, there}
use dsm_db.Latch.Steps.{done, next}

-- 1 for a thread that is inside as an insertion or a search, and for one that is counted as a
-- deletion.
abbrev pub reads : Place → ℕ
reads is_inside = 1
reads _ = 0

abbrev pub deletes : Place → ℕ
deletes d_inside = 1
deletes d_opened = 1
deletes _ = 0

abbrev pub total : (Place → ℕ) → List Place → ℕ
total f [] = 0
total f (p ∷ ps) = f p + total f ps

-- The counts of the lock, and a number that stands for the other threads.
abbrev Counted : Lock → ℕ → ℕ → Type 0
Counted l n k = (l.count_is ≡ n % 256) × (l.count_d ≡ k % 256)

Counted-move :
    (l l' : Lock) (p p' : Place) (n k : ℕ)
    → Moves l p l' p'
    → Counted l (reads p + n) (deletes p + k)
    → Counted l' (reads p' + n) (deletes p' + k)
Counted-move l l' p p' n k Moves.is_calls h = h
Counted-move l l' p p' n k (Moves.is_spins e) h = h
Counted-move l l' p p' n k (Moves.is_passes e) h = h
Counted-move l l' p p' n k Moves.is_adds h = (omega (arith, h.0), h.1)
Counted-move l l' p p' n k Moves.is_releases h = (omega (arith, h.0), h.1)
Counted-move l l' p p' n k Moves.d_raises h = h
Counted-move l l' p p' n k (Moves.d_spins e) h = h
Counted-move l l' p p' n k (Moves.d_passes e) h = h
Counted-move l l' p p' n k (Moves.d_spins_key e) h = h
Counted-move l l' p p' n k (Moves.d_passes_key e) h = h
Counted-move l l' p p' n k Moves.d_takes h = h
Counted-move l l' p p' n k Moves.d_adds h = (h.0, omega (arith, h.1))
Counted-move l l' p p' n k Moves.d_opens h = h
Counted-move l l' p p' n k Moves.d_subtracts h = (h.0, omega (arith, h.1))
Counted-move l l' p p' n k (Moves.d_leaves e) h = h
Counted-move l l' p p' n k (Moves.d_is_last e) h = h
Counted-move l l' p p' n k Moves.d_lowers_flag h = h

recount : (l : Lock) (n n' k k' : ℕ) → n ≡ n' → k ≡ k' → Counted l n k → Counted l n' k'
recount l n n' k k' e e' h = (h.0 ∙ ap (λ x. x % 256) e, h.1 ∙ ap (λ x. x % 256) e')

-- The same for a step of one of the threads, with `a` and `b` for those in front of them.
Counted-Step :
    (l l' : Lock) (ps ps' : List Place) (a b : ℕ)
    → Step l ps l' ps'
    → Counted l (a + total reads ps) (b + total deletes ps)
    → Counted l' (a + total reads ps') (b + total deletes ps')
Counted-Step l l' _ _ a b (here {p = p} {p' = p'} {ps = ps} m) h =
    let n = total reads ps in
    let k = total deletes ps in
    recount l' (reads p' + (a + n)) (a + (reads p' + n)) (deletes p' + (b + k))
      (b + (deletes p' + k)) (omega arith) (omega arith)
      (Counted-move l l' p p' (a + n) (b + k) m (
        recount l (a + (reads p + n)) (reads p + (a + n)) (b + (deletes p + k))
          (deletes p + (b + k)) (omega arith) (omega arith) h))
Counted-Step l l' _ _ a b (there {p = p} {ps = ps} {ps' = ps'} s) h =
    recount l' (a + reads p + total reads ps') (a + (reads p + total reads ps'))
      (b + deletes p + total deletes ps') (b + (deletes p + total deletes ps')) (omega arith)
      (omega arith)
      (Counted-Step l l' ps ps' (a + reads p) (b + deletes p) s (
        recount l (a + (reads p + total reads ps)) (a + reads p + total reads ps)
          (b + (deletes p + total deletes ps)) (b + deletes p + total deletes ps) (omega arith)
          (omega arith) h))

Counted-Steps :
    (l l' : Lock) (ps ps' : List Place)
    → Steps l ps l' ps'
    → Counted l (total reads ps) (total deletes ps)
    → Counted l' (total reads ps') (total deletes ps')
Counted-Steps l _ ps _ done h = h
Counted-Steps l l' ps ps' (next {l' = l1} {ps' = ps1} s rest) h = Counted-Steps l1 l' ps1 ps' rest (
    recount l1 (0 + total reads ps1) (total reads ps1) (0 + total deletes ps1) (total deletes ps1)
      (omega arith) (omega arith)
      (Counted-Step l l1 ps ps1 0 0 s (
        recount l (total reads ps) (0 + total reads ps) (total deletes ps) (0 + total deletes ps)
          (omega arith) (omega arith) h)))

-- All threads are outside.
abbrev pub AllOutside : List Place → Type 0
AllOutside [] = Unit
AllOutside (p ∷ ps) = (p ≡ outside) × AllOutside ps

none_counted : (ps : List Place) → AllOutside ps → (total reads ps ≡ 0) × (total deletes ps ≡ 0)
none_counted [] h = (refl, refl)
none_counted (p ∷ ps) h =
    let rest = none_counted ps h.1 in
    (omega (arith, ap reads h.0, rest.0), omega (arith, ap deletes h.0, rest.1))

-- From a new lock, with all threads outside and any order of their steps, `count_is` is always the
-- number of the threads that are inside as insertions or searches, and `count_d` that of the deletions
-- inside or on the way out, modulo 256.
pub isd_init-Steps :
    (l : Lock) (start ps : List Place)
    → AllOutside start
    → Steps isd_init start l ps
    → (l.count_is ≡ total reads ps % 256) × (l.count_d ≡ total deletes ps % 256)
isd_init-Steps l start ps out s =
    let none_yet = none_counted start out in
    Counted-Steps isd_init l start ps s
      (ap (λ x. x % 256) (sym none_yet.0), ap (λ x. x % 256) (sym none_yet.1))
