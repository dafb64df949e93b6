-- ===== src/Protocol/Spells.antt =====
-- client/db_client.c, src/network/net.c: bytes in memory, at their offsets.
use dsm_db.Shared.{
  ℕ, suc, ◌+◌, ◌*◌, ◌/◌, ◌%◌, ◌^◌, ◌≤◌, ◌<◌, ◌≡◌, ◌⊎◌, refl, ap, ◌∙◌, subst, List, [], ◌∷◌, ◌++◌,
  length, arith,
}
use dsm_db.Shared.Memory.{Bytes, load32}
use dsm_db.Protocol.{Spells, store8, receive, bytes16, bytes32}

pub Spells-at : (m : Bytes) (a b : ℕ) (w : List ℕ) → a ≡ b → Spells m a w → Spells m b w
Spells-at m a b w e h = subst (λ x. Spells m x w) e h

pub Spells-behind :
    (m : Bytes) (n a : ℕ) (w : List ℕ) → Spells m (n + a) w → Spells (λ j. m (n + j)) a w
Spells-behind m n a [] h = tt
Spells-behind m n a (c ∷ w) h =
    (h.0, Spells-behind m n (suc a) w (Spells-at m (suc (n + a)) (n + suc a) w (omega arith) h.1))

Spells-suc : (m : Bytes) (a : ℕ) (w : List ℕ) → Spells (λ k. m (suc k)) a w → Spells m (suc a) w
Spells-suc m a [] h = tt
Spells-suc m a (c ∷ w) h = (h.0, Spells-suc m (suc a) w h.1)

-- What is received stands at the start, and behind it what was there.
pub Spells-receive :
    (w : List ℕ) (old : Bytes) (z : ℕ) → old (length w) ≡ z → Spells (receive w old) 0 (w ++ z ∷ [])
unfolding receive
Spells-receive [] old z h = (h, tt)
Spells-receive (c ∷ w) old z h = (
  refl,
  Spells-suc (receive (c ∷ w) old) 0 (w ++ z ∷ []) (Spells-receive w (λ k. old (suc k)) z h),
)

pub Spells-left : (m : Bytes) (a : ℕ) (u v : List ℕ) → Spells m a (u ++ v) → Spells m a u
Spells-left m a [] v h = tt
Spells-left m a (c ∷ u) v h = (h.0, Spells-left m (suc a) u v h.1)

pub Spells-right :
    (m : Bytes) (a : ℕ) (u v : List ℕ) → Spells m a (u ++ v) → Spells m (a + length u) v
Spells-right m a [] v h = Spells-at m a (a + 0) v (omega arith) h
Spells-right m a (c ∷ u) v h =
    Spells-at m (suc a + length u) (a + suc (length u)) v (omega arith)
      (Spells-right m (suc a) u v h.1)

pub Spells-append :
    (m : Bytes) (a : ℕ) (u v : List ℕ)
    → Spells m a u
    → Spells m (a + length u) v
    → Spells m a (u ++ v)
Spells-append m a [] v h k = Spells-at m (a + 0) a v (omega arith) k
Spells-append m a (c ∷ u) v h k = (
  h.0,
  Spells-append m (suc a) u v h.1
      (Spells-at m (a + suc (length u)) (suc a + length u) v (omega arith) k),
)

-- A byte that is written elsewhere.
pub Spells-store8 :
    (m : Bytes) (j z a : ℕ) (w : List ℕ)
    → (j < a) ⊎ (a + length w ≤ j)
    → Spells m a w
    → Spells (store8 m j z) a w
Spells-store8 m j z a [] out h = tt
Spells-store8 m j z a (c ∷ w) out h =
    (ground (arith, h.0, out), Spells-store8 m j z (suc a) w (ground (arith, out)) h.1)

pub load32-Spells : (m : Bytes) (a v : ℕ) → v < 2 ^ 32 → Spells m a (bytes32 v) → load32 m a ≡ v
unfolding load32
load32-Spells m a v lt h =
    let one : m (a + 1) ≡ v / 256 % 256 = ap m (omega arith) ∙ h.1.0 in
    let two : m (a + 2) ≡ v / 65536 % 256 = ap m (omega arith) ∙ h.1.1.0 in
    let three : m (a + 3) ≡ v / 16777216 % 256 = ap m (omega arith) ∙ h.1.1.1.0 in
    omega (arith, h.0, one, two, three)

-- The two lengths that stand before an attribute.
pub load32-pair :
    (m : Bytes) (a x y : ℕ)
    → x < 65536
    → y < 65536
    → Spells m a (bytes16 x ++ bytes16 y)
    → load32 m a ≡ x + 65536 * y
unfolding load32
load32-pair m a x y hx hy h =
    let one : m (a + 1) ≡ x / 256 % 256 = ap m (omega arith) ∙ h.1.0 in
    let two : m (a + 2) ≡ y % 256 = ap m (omega arith) ∙ h.1.1.0 in
    let three : m (a + 3) ≡ y / 256 % 256 = ap m (omega arith) ∙ h.1.1.1.0 in
    omega (arith, h.0, one, two, three)
