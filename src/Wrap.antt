-- ===== src/Wrap.antt =====
-- include/wrap.h and src/network/wrap.c: the loops that call recv and send until all is read or
-- written. What the calls give, one after another, is a list of outcomes; `none` stands for a loop
-- that is still waiting when they are out.
use dsm_db.Shared.{
  ℕ, ◌+◌, Bool, true, false, ◌==◌, Option, some, none, List, [], ◌∷◌, ◌++◌, length, if◌then◌else◌,
}
pub mod Whole
mod Tests

-- -1 with EAGAIN, -1 with another error, or the bytes that came in, none of them when the peer has
-- closed the connection.
pub data Received : Type 0 where
  again : Received
  failed : Received
  got : List ℕ → Received

-- The bytes in the buffer, or -1; `buf` is what was read so far.
unfoldable pub wrap_recv : List Received → List ℕ → ℕ → Option (Option (List ℕ))
wrap_recv [] buf len = none
wrap_recv (again ∷ rs) buf len = wrap_recv rs buf len
wrap_recv (failed ∷ rs) buf len = some none
wrap_recv (got bytes ∷ rs) buf len =
    let rest = wrap_recv rs (buf ++ bytes) len in
    if length (buf ++ bytes) == len then some (some (buf ++ bytes)) else rest

-- The same for send: the count of bytes that went out.
pub data Sent : Type 0 where
  again : Sent
  failed : Sent
  wrote : ℕ → Sent

unfoldable pub wrap_send : List Sent → ℕ → ℕ → Option (Option ℕ)
wrap_send [] writen len = none
wrap_send (again ∷ rs) writen len = wrap_send rs writen len
wrap_send (failed ∷ rs) writen len = some none
wrap_send (wrote n ∷ rs) writen len =
    let rest = wrap_send rs (writen + n) len in
    if writen + n == len then some (some (writen + n)) else rest
