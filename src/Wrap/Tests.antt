-- ===== src/Wrap/Tests.antt =====
-- Three bytes in two parts: the theorems at inputs that meet their conditions.
use dsm_db.Shared.{◌≡◌, refl, some, none, List, [], ◌∷◌, ◌++◌, arith}
use dsm_db.Wrap.{Received, wrap_recv}
use dsm_db.Wrap.Whole.{Arrives, closed, wrap_recv_lem, wrap_recv-closed}

abbrev parts : List Received
parts = Received.got (7 ∷ []) ∷ Received.again ∷ Received.got (8 ∷ 9 ∷ []) ∷ []

parts-Arrives : Arrives parts (7 ∷ 8 ∷ 9 ∷ [])
parts-Arrives = Arrives.part (7 ∷ []) (Arrives.later (Arrives.part (8 ∷ 9 ∷ []) Arrives.done))

failed_recv : wrap_recv (Received.got (7 ∷ []) ∷ Received.failed ∷ []) [] 3 ≡ some none
unfolding wrap_recv
failed_recv = refl

wrap_recv_lem_example : wrap_recv parts [] 3 ≡ some (some (7 ∷ 8 ∷ 9 ∷ []))
wrap_recv_lem_example = wrap_recv_lem parts (7 ∷ 8 ∷ 9 ∷ []) parts-Arrives (omega arith)

wrap_recv-closed_example : wrap_recv (parts ++ closed 5) [] 4 ≡ none
wrap_recv-closed_example = wrap_recv-closed parts (7 ∷ 8 ∷ 9 ∷ []) 4 5 parts-Arrives (omega arith)
