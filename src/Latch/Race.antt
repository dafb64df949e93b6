-- ===== src/Latch/Race.antt =====
-- src/latch/isdlock.c: a deletion beside a search, and beside another deletion.
use dsm_db.Shared.{◌≡◌, false, List, ◌∷◌}
use dsm_db.Latch.{Lock, Place, Moves, Steps}
use dsm_db.Latch.Place.{outside, is_inside, d_inside}
use dsm_db.Latch.Step.{here, there}
use dsm_db.Latch.Steps.{done, next}

-- While a lock has its flag down, no key taken and nobody inside as an insertion or a search, two
-- threads that are outside can come to be inside at once, the one as an insertion or a search and the
-- other as a deletion; and they can come to be inside both as deletions. The lock does not shut the one
-- out: each looks at the lock first and writes to it in a later step.
pub both_inside :
    (l : Lock) (others : List Place)
    → l.flag ≡ false
    → l.count_is ≡ 0
    → l.key ≡ 0
    → ((l' : Lock) × Steps l (outside ∷ outside ∷ others) l' (is_inside ∷ d_inside ∷ others))
      × ((l' : Lock) × Steps l (outside ∷ outside ∷ others) l' (d_inside ∷ d_inside ∷ others))
both_inside l others down free unlocked = (
  (
    _,
    next (here Moves.is_calls) (
        next (here (Moves.is_passes down)) (
          next (there (here Moves.d_raises)) (
            next (there (here (Moves.d_passes free))) (
              next (there (here (Moves.d_passes_key unlocked))) (
                next (there (here Moves.d_takes))
                  (next (there (here Moves.d_adds)) (next (here Moves.is_adds) done))))))),
  ),
  (
    _,
    next (here Moves.d_raises) (
        next (here (Moves.d_passes free)) (
          next (here (Moves.d_passes_key unlocked)) (
            next (there (here Moves.d_raises)) (
              next (there (here (Moves.d_passes free))) (
                next (there (here (Moves.d_passes_key unlocked))) (
                  next (there (here Moves.d_takes)) (
                    next (there (here Moves.d_adds))
                      (next (here Moves.d_takes) (next (here Moves.d_adds) done))))))))),
  ),
)
