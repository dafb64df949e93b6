-- ===== src/Latch/Tests.antt =====
-- Two threads at a new lock: a run, and the theorems at inputs that meet their conditions.
use dsm_db.Shared.{◌%◌, ◌≡◌, refl, true, List, [], ◌∷◌}
use dsm_db.Latch.{Lock, Place, Moves, Steps, isd_init}
use dsm_db.Latch.Place.{outside, is_inside, d_inside, d_flagged}
use dsm_db.Latch.Step.{here, there}
use dsm_db.Latch.Steps.{done, next}
use dsm_db.Latch.Count.{reads, deletes, total, isd_init-Steps}
use dsm_db.Latch.Race.{both_inside}

abbrev two : List Place
two = outside ∷ outside ∷ []

abbrev in_use : Lock
in_use = record { count_is = 1; count_d = 0; key = 0; flag = true }

-- A search is inside, and a deletion waits for it.
search_first : Steps isd_init two in_use (is_inside ∷ d_flagged ∷ [])
search_first = next (here Moves.is_calls) (
    next (here (Moves.is_passes refl))
      (next (here Moves.is_adds) (next (there (here Moves.d_raises)) done)))

isd_init-Steps_example :
    (in_use.count_is ≡ total reads (is_inside ∷ d_flagged ∷ []) % 256)
    × (in_use.count_d ≡ total deletes (is_inside ∷ d_flagged ∷ []) % 256)
isd_init-Steps_example =
    isd_init-Steps in_use two (is_inside ∷ d_flagged ∷ []) (refl, (refl, tt)) search_first

both_inside_example :
    ((l' : Lock) × Steps isd_init two l' (is_inside ∷ d_inside ∷ []))
    × ((l' : Lock) × Steps isd_init two l' (d_inside ∷ d_inside ∷ []))
both_inside_example = both_inside isd_init [] refl refl refl
