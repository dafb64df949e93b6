-- ===== src/Shared/Memory.antt =====
-- Byte memory: a function from the offset to the byte. Words are little-endian, as on x86.
use Prim.Native.Nat.{ℕ, ◌+◌, ◌-◌, ◌*◌, ◌/◌, ◌%◌, ◌^◌, ◌≤◌, ◌<◌}
use mathlib.Core.Path.{◌≡◌, refl, sym, ap, ◌∙◌}
use mathlib.Core.Logic.{◌⊎◌}
use mathlib.Core.Bool.{◌&&◌}
use native.Mathlib.Omega.{arith}
use dsm_db.Shared.Tests.{ltb, leb, ◌==◌, if◌then◌else◌}

abbrev pub Bytes : Type 0
Bytes = ℕ → ℕ

-- A `uint16_t` at an offset.
unfoldable pub load16 : Bytes → ℕ → ℕ
load16 m a = m a % 256 + 256 * (m (a + 1) % 256)

unfoldable pub store16 : Bytes → ℕ → ℕ → Bytes
store16 m a v j = if j == a then v % 256 else if j == a + 1 then v / 256 % 256 else m j

-- memcpy of `n` bytes of `from` to the offset `a`.
unfoldable pub memcpy : Bytes → ℕ → Bytes → ℕ → Bytes
memcpy m a from n j = if leb a j && ltb j (a + n) then from (j - a) else m j

pub load16-lt : (m : Bytes) (a : ℕ) → load16 m a < 65536
unfolding load16
load16-lt m a = omega arith

-- What is stored is read back.
pub load16-store16 : (m : Bytes) (a v : ℕ) → v < 65536 → load16 (store16 m a v) a ≡ v
unfolding load16 store16
load16-store16 m a v h = ground arith

-- A store elsewhere is not seen.
pub load16-store16_ne :
    (m : Bytes) (a b v : ℕ) → (a + 2 ≤ b) ⊎ (b + 2 ≤ a) → load16 (store16 m a v) b ≡ load16 m b
unfolding load16 store16
load16-store16_ne m a b v h = ground arith

pub load16-memcpy :
    (m : Bytes) (a : ℕ) (from : Bytes) (n b : ℕ)
    → (a + n ≤ b) ⊎ (b + 2 ≤ a)
    → load16 (memcpy m a from n) b ≡ load16 m b
unfolding load16 memcpy
load16-memcpy m a from n b h = ground arith

pub store16_ne : (m : Bytes) (a v j : ℕ) → (a + 2 ≤ j) ⊎ (j < a) → store16 m a v j ≡ m j
unfolding store16
store16_ne m a v j h = ground arith

pub memcpy_ne :
    (m : Bytes) (a : ℕ) (from : Bytes) (n j : ℕ) → (a + n ≤ j) ⊎ (j < a) → memcpy m a from n j ≡ m j
unfolding memcpy
memcpy_ne m a from n j h = ground arith

pub memcpy_at :
    (m : Bytes) (a : ℕ) (from : Bytes) (n k : ℕ) → k < n → memcpy m a from n (a + k) ≡ from k
unfolding memcpy
memcpy_at m a from n k h = ground arith

-- A `uint32_t` or an `int` at an offset, and the bytes of one.
unfoldable pub load32 : Bytes → ℕ → ℕ
load32 m a =
    m a % 256 + 256 * (m (a + 1) % 256) + 65536 * (m (a + 2) % 256) + 16777216 * (m (a + 3) % 256)

unfoldable pub word_bytes : ℕ → Bytes
word_bytes v k = v / 256 ^ k % 256

-- A memory that holds the bytes of a word at an offset.
pub load32_lem :
    (m : Bytes) (a v : ℕ)
    → v < 2 ^ 32
    → ((k : ℕ) → k < 4 → m (a + k) ≡ word_bytes v k)
    → load32 m a ≡ v
unfolding load32 word_bytes
load32_lem m a v h same =
    let at : a ≡ a + 0 = omega arith in
    let e0 : m a ≡ v / 1 % 256 = ap m at ∙ same 0 (omega arith) in
    let e1 : m (a + 1) ≡ v / 256 % 256 = same 1 (omega arith) in
    let e2 : m (a + 2) ≡ v / 65536 % 256 = same 2 (omega arith) in
    let e3 : m (a + 3) ≡ v / 16777216 % 256 = same 3 (omega arith) in omega (arith, e0, e1, e2, e3)

pub load32_same :
    (m m' : Bytes) (a : ℕ) → ((k : ℕ) → k < 4 → m' (a + k) ≡ m (a + k)) → load32 m' a ≡ load32 m a
unfolding load32
load32_same m m' a same =
    let at : a ≡ a + 0 = omega arith in
    let e0 : m' a ≡ m a = ap m' at ∙ same 0 (omega arith) ∙ ap m (sym at) in
    rw (e0, same 1 (omega arith), same 2 (omega arith), same 3 (omega arith)) refl
