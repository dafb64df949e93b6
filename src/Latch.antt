-- ===== src/Latch.antt =====
-- src/latch/isdlock.c: the lock that lets deletions go before insertions and searches, as a step
-- relation: each step is one access of a thread to the lock. `volatile` accesses to the flag set or
-- clear its one bit, so each of them is one step too. The counts are 8-bit.
use dsm_db.Shared.{ℕ, ◌+◌, ◌%◌, ◌≡◌, ◌≢◌, Bool, true, false, List, [], ◌∷◌}
pub mod Count
pub mod Race
mod Tests

pub record Lock : Type 0 where
  pub count_is : ℕ
  pub count_d : ℕ
  pub key : ℕ
  pub flag : Bool

abbrev pub isd_init : Lock
isd_init = record { count_is = 0; count_d = 0; key = 0; flag = false }

-- Where a thread is: outside of the lock; in `isd_is_require` before the loop and behind it; inside
-- as an insertion or a search; in `isd_d_require` behind the write of the flag, behind each of the two
-- loops, and behind the exchange; inside as a deletion; and in `isd_d_release` behind the exchange,
-- behind the subtraction, and before the flag is cleared.
pub data Place : Type 0 where
  outside : Place
  is_waits : Place
  is_passed : Place
  is_inside : Place
  d_flagged : Place
  d_counted : Place
  d_keyed : Place
  d_taken : Place
  d_inside : Place
  d_opened : Place
  d_uncounted : Place
  d_lowers : Place

-- What a thread does next, and what the lock is then.
pub data Moves : Lock → Place → Lock → Place → Type 0 where
  is_calls : {l : Lock} → Moves l outside l is_waits
  is_spins : {l : Lock} → l.flag ≡ true → Moves l is_waits l is_waits
  is_passes : {l : Lock} → l.flag ≡ false → Moves l is_waits l is_passed
  is_adds :
      {l : Lock} → Moves l is_passed (record l { count_is = (l.count_is + 1) % 256 }) is_inside
  is_releases :
      {l : Lock} → Moves l is_inside (record l { count_is = (l.count_is + 255) % 256 }) outside
  d_raises : {l : Lock} → Moves l outside (record l { flag = true }) d_flagged
  d_spins : {l : Lock} → l.count_is ≢ 0 → Moves l d_flagged l d_flagged
  d_passes : {l : Lock} → l.count_is ≡ 0 → Moves l d_flagged l d_counted
  d_spins_key : {l : Lock} → l.key ≢ 0 → Moves l d_counted l d_counted
  d_passes_key : {l : Lock} → l.key ≡ 0 → Moves l d_counted l d_keyed
  d_takes : {l : Lock} → Moves l d_keyed (record l { key = 1 }) d_taken
  d_adds : {l : Lock} → Moves l d_taken (record l { count_d = (l.count_d + 1) % 256 }) d_inside
  d_opens : {l : Lock} → Moves l d_inside (record l { key = 0 }) d_opened
  d_subtracts :
      {l : Lock} → Moves l d_opened (record l { count_d = (l.count_d + 255) % 256 }) d_uncounted
  d_leaves : {l : Lock} → l.count_d ≢ 0 → Moves l d_uncounted l outside
  d_is_last : {l : Lock} → l.count_d ≡ 0 → Moves l d_uncounted l d_lowers
  d_lowers_flag : {l : Lock} → Moves l d_lowers (record l { flag = false }) outside

-- One of the threads moves.
pub data Step : Lock → List Place → Lock → List Place → Type 0 where
  here :
      {l l' : Lock} {p p' : Place} {ps : List Place}
      → Moves l p l' p'
      → Step l (p ∷ ps) l' (p' ∷ ps)
  there :
      {l l' : Lock} {p : Place} {ps ps' : List Place}
      → Step l ps l' ps'
      → Step l (p ∷ ps) l' (p ∷ ps')

pub data Steps : Lock → List Place → Lock → List Place → Type 0 where
  done : {l : Lock} {ps : List Place} → Steps l ps l ps
  next :
      {l l' l'' : Lock} {ps ps' ps'' : List Place}
      → Step l ps l' ps'
      → Steps l' ps' l'' ps''
      → Steps l ps l'' ps''
