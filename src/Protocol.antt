-- ===== src/Protocol.antt =====
-- include/net.h, client/db_client.h: the protocol between the client and the server: its numbers,
-- its bytes, and strings in memory. Text is the list of its codes, without the NUL at its end.
use Prim.Native.Char.{code}
use Prim.Native.String.{String}
use dsm_db.Shared.{
  ℕ, zero, suc, ◌+◌, ◌-◌, ◌*◌, ◌/◌, ◌%◌, ◌^◌, Bool, true, false, leb, ◌==◌, ◌&&◌, ◌||◌, List, [],
  ◌∷◌, if◌then◌else◌, ◌≡◌,
}
use dsm_db.Shared.Memory.{Bytes}
pub mod MsgType
pub mod Cmd
pub mod Spells
pub mod Client
pub mod Values
pub mod Reading
pub mod Session
pub mod Insertion
pub mod Types
pub mod Packed
pub mod Creation
pub mod Numbers
mod Tests
pub mod Server

abbrev pub codes : String → List ℕ
codes String.[] = []
codes (String.◌∷◌ c s) = code c ∷ codes s

abbrev pub separate_sign : ℕ
separate_sign = b'|'

abbrev pub bufsize : ℕ
bufsize = 4096

abbrev pub max_cmdlen : ℕ
max_cmdlen = 512

abbrev pub content_state_bit : ℕ
content_state_bit = 65536

-- IS_CONTENT_UP and __SKIP_CSBIT
abbrev pub is_content_up : ℕ → Bool
is_content_up x = x / content_state_bit % 2 == 1

abbrev pub skip_csbit : ℕ → ℕ
skip_csbit x = if is_content_up x then x - content_state_bit else x

-- TYPE_CONNECT_EXIT
abbrev pub type_connect_exit : ℕ
type_connect_exit = 3

-- The bytes of a `uint16_t` and of an `int`.
abbrev pub bytes16 : ℕ → List ℕ
bytes16 v = v % 256 ∷ v / 256 % 256 ∷ []

abbrev pub bytes32 : ℕ → List ℕ
bytes32 v = v % 256 ∷ v / 256 % 256 ∷ v / 65536 % 256 ∷ v / 16777216 % 256 ∷ []

abbrev pub store8 : Bytes → ℕ → ℕ → Bytes
store8 m a v j = if j == a then v else m j

-- recv: the bytes that come, at the start of what is there.
unfoldable pub receive : List ℕ → Bytes → Bytes
receive [] old j = old j
receive (c ∷ cs) old zero = c
receive (c ∷ cs) old (suc j) = receive cs (λ k. old (suc k)) j

-- The bytes from an offset on.
abbrev pub Spells : Bytes → ℕ → List ℕ → Type 0
Spells m a [] = Unit
Spells m a (c ∷ w) = (m a ≡ c) × Spells m (suc a) w
