-- ===== src/Protocol/Server.antt =====
-- src/network/net.c, src/cmd/cmd.c: how the server reads a command. A string is the offset of its
-- first character, in the memory that starts at the buffer's data. Fuel counts the rounds of a loop;
-- `none` is a loop that is still running when it is out, and a use of NULL. What `exec` does behind
-- a command, the closing of connections, is left out.
use dsm_db.Shared.{
  ℕ, zero, suc, ◌+◌, ◌-◌, ◌*◌, ◌/◌, ◌%◌, ◌^◌, Bool, ltb, leb, ◌==◌, not, ◌&&◌, Option, some, none,
  List, [], ◌∷◌, ◌++◌, length, take, drop, if◌then◌else◌, ◌>>=◌,
}
use dsm_db.Shared.Memory.{Bytes, load32}
use dsm_db.Hash.{char_value}
use dsm_db.Protocol.{
  separate_sign, max_cmdlen, is_content_up, skip_csbit, type_connect_exit, store8, receive, bytes32,
}
use dsm_db.Protocol.Cmd.{
  g_create, g_delete, g_insert, g_remove, g_search, g_read, i_create, i_delete, i_insert, i_remove,
  i_search, i_read,
}
use dsm_db.Protocol.MsgType.{connect, cmd as cmd_type, content, state, content_end}

unfoldable pub type_to_size : ℕ → ℕ
type_to_size type =
    if type == 1
    then 16
    else if type == 2
    then 32
    else if type == 3
    then 64
    else if type == 4
    then 8
    else if type == 5
    then 16
    else if type == 6
    then 32
    else if type == 7
    then 64
    else if type == 8
    then 128
    else if type == 9
    then 256
    else 0

-- The loop of `__create_format`: where the names of the attributes are, with the sizes of their
-- types, and the memory with a NUL behind each name. `next` has the two lengths that stand before.
unfoldable pub create_items : ℕ → Bytes → ℕ → ℕ → ℕ → ℕ → Option (List (ℕ × ℕ) × Bytes)
create_items zero m i h next msg_len = none
create_items (suc f) m i h next msg_len =
    let end = h + next % 65536 in
    let rest = create_items f (store8 m end 0) end (end + 4) (load32 m end) msg_len in
    let more : Option (List (ℕ × ℕ) × Bytes) = (do
      (attrs, m') ← rest
      some ((h, type_to_size (next / 65536)) ∷ attrs, m')) in
    if ltb i msg_len then more else some ([], m)

-- `__create_format`, of the data at an offset.
unfoldable pub create_format : Bytes → ℕ → ℕ → Option (List (ℕ × ℕ) × Bytes)
create_format m a msg_len = create_items (suc msg_len) m (a + 4) (a + 4) (load32 m a) (a + msg_len)

-- The loop of `__tinsert_format`: where the values are.
unfoldable pub tinsert_items : ℕ → Bytes → ℕ → ℕ → ℕ → Option (List ℕ)
tinsert_items zero m a i h = none
tinsert_items (suc f) m a i h =
    let start = a + (i - h) + (if i == h then 0 else 1) in
    let rest = tinsert_items f m a (i + 1) 1 in
    let on = tinsert_items f m a (i + 1) (h + 1) in
    let more : Option (List ℕ) = (rest >>= λ others. some (start ∷ others)) in
    let value : Option (List ℕ) = if m (a + i + 1) == 0 then some (start ∷ []) else more in
    if m (a + i) == 0 then value else on

unfoldable pub tinsert_format : ℕ → Bytes → ℕ → Option (List ℕ)
tinsert_format f m a = tinsert_items f m a 0 0

-- The loop of `__to_uint32`.
unfoldable pub uint32_items : ℕ → Bytes → ℕ → ℕ → Option ℕ
uint32_items zero m a value = none
uint32_items (suc f) m a value =
    let rest =
      uint32_items f m (a + 1) ((value * 10 % 2 ^ 32 + char_value (m a) + 2 ^ 64 - 48) % 2 ^ 32) in
    if m a == 0 then some value else rest

unfoldable pub to_uint32 : ℕ → Bytes → ℕ → Option ℕ
to_uint32 f m a = uint32_items f m (a + 1) ((char_value (m a) + 2 ^ 64 - 48) % 2 ^ 32)

-- strlen
unfoldable pub strlen : ℕ → Bytes → ℕ → Option ℕ
strlen zero m a = none
strlen (suc f) m a =
    let rest = (strlen f m (a + 1) >>= λ n. some (n + 1)) in if m a == 0 then some 0 else rest

abbrev chars : Bytes → ℕ → ℕ → List ℕ
chars m a zero = []
chars m a (suc n) = m a ∷ chars m (a + 1) n

-- The loop of `__iinsert_format`: the values but the first, one behind the other. The NUL of each
-- has room too, in the `len` bytes that are allocated: `none` is a write behind them.
unfoldable pub iinsert_items : ℕ → Bytes → ℕ → ℕ → ℕ → List ℕ → ℕ → Option (List ℕ)
iinsert_items zero m a i h out len = none
iinsert_items (suc f) m a i h out len =
    let copied = (if i == h then out else out ++ chars m (a + (i - h) + 1) (h - 1)) in
    let rest = iinsert_items f m a (i + 1) 1 copied len in
    let on = iinsert_items f m a (i + 1) (h + 1) out len in
    let value : Option (List ℕ) =
      if not (i == h) && leb len (length copied)
      then none
      else if m (a + i + 1) == 0
      then some copied
      else rest in
    if m (a + i) == 0 then value else on

-- `__iinsert_format`: `new` has room for four bytes less than the first value is long, and where that
-- is negative no room is got.
unfoldable pub iinsert_format : ℕ → Bytes → ℕ → Option (List ℕ)
iinsert_format f m a = do
  n ← strlen f m a
  let new = iinsert_items f m a 0 0 [] (n - 4)
  if ltb n 4 then none else new

-- The call that a command comes to, by what it is given: offsets of strings, the attributes with
-- their sizes, keys and numbers.
pub data Request : Type 0 where
  db_1_tcreate : ℕ → List (ℕ × ℕ) → Request
  db_1_tdelete : ℕ → Request
  db_1_tinsert : ℕ → List ℕ → Request
  db_1_tremove_by_index : ℕ → ℕ → Request
  db_1_icreate : ℕ → List (ℕ × ℕ) → Request
  db_1_iinsert : ℕ → List ℕ → ℕ → Request
  db_1_iremove : ℕ → ℕ → Request
  db_1_isearch : ℕ → ℕ → Request
  db_1_tread_and_iread : ℕ → Option ℕ → Request
  db_1_iread : ℕ → Option ℕ → Request
  no_call : Request

-- The first `switch` of `simple_db_executer`, with the memory that the formats leave. The names of
-- the arguments are `table` and `data`, which is NULL with one argument.
unfoldable pub simple_db_executer : ℕ → Bytes → ℕ → Option ℕ → ℕ → ℕ → Option (Request × Bytes)
simple_db_executer f m table arg command msg_len =
    let create : (ℕ → List (ℕ × ℕ) → Request) → Option (Request × Bytes) =
      λ call. (do a ← arg; (attrs, m') ← create_format m a msg_len; some (call table attrs, m')) in
    let number : (ℕ → ℕ → Request) → Option (Request × Bytes) =
      λ call. (do a ← arg; some (call table (load32 m a), m)) in
    let insert : Option (Request × Bytes) = (do
      a ← arg
      values ← tinsert_format f m a
      some (db_1_tinsert table values, m)) in
    let index_insert : Option (Request × Bytes) = (do
      a ← arg
      value ← iinsert_format f m a
      key ← to_uint32 f m a
      some (db_1_iinsert table value key, m)) in
    let search : Option (Request × Bytes) = (do a ← arg; some (no_call, m)) in
    if command == g_create
    then create db_1_tcreate
    else if command == g_delete
    then some (db_1_tdelete table, m)
    else if command == g_insert
    then insert
    else if command == g_remove
    then number db_1_tremove_by_index
    else if command == g_search
    then search
    else if command == i_create
    then create db_1_icreate
    else if command == i_delete
    then some (no_call, m)
    else if command == i_insert
    then index_insert
    else if command == i_remove
    then number db_1_iremove
    else if command == i_search
    then number db_1_isearch
    else if command == g_read
    then some (db_1_tread_and_iread table arg, m)
    else if command == i_read
    then some (db_1_iread table arg, m)
    else some (no_call, m)

-- The reply: its type, and 0 for a state that is not 0, else what says that the call failed.
unfoldable pub reply_of : ℕ → Bool → List ℕ
reply_of reply_type ok =
    if reply_type == content
    then content_end ∷ bytes32 (if ok then 0 else 1)
    else reply_type ∷ bytes32 (if ok then 0 else 2)

-- The loop of `executer`: the index of the separator, and what the 16 bits of `msg_len - i` come to.
unfoldable pub separator : Bytes → ℕ → ℕ → Option (ℕ × ℕ)
separator m a zero = none
separator m a (suc n) =
    if m a == separate_sign then some (a, (n + 65535) % 65536) else separator m (a + 1) n

-- A call, with the type of its reply and the memory.
pub record Called : Type 0 where
  pub request : Request
  pub reply_type : ℕ
  pub memory : Bytes

-- `executer`: a message without a separator has no second argument. `msg_len - i` is then 0.
unfoldable pub executer : ℕ → ℕ → Bytes → ℕ → Option Called
executer f command m msg_len =
    let call : Bytes → Option ℕ → ℕ → Option Called = λ m' arg n. (do
      (request, m'') ← simple_db_executer f m' 0 arg (skip_csbit command) n
      some (record {
        request = request;
        reply_type = if is_content_up command then content else state;
        memory = m'';
      })) in
    elim (separator m 0 msg_len) [
      | none ↦ call m none 0
      | some (i, n) ↦ call (store8 m i 0) (some (i + 1)) n
    ]

-- What a message does: the connection is closed or nothing happens when no byte comes; else the end
-- of the connection is noted down, or a command is run.
pub data Effect : Type 0 where
  closed : Effect
  nothing : Effect
  close_up : Effect
  run : Called → Effect

-- `exec`, when a message has come whole, its content with one recv that does not fail; `closing` is
-- the bit that a client's exit leaves. The bytes behind the length go over what the stack has in
-- `buf`, as long as they fit, and the command is read from there. `executer` reads from behind the
-- command and the first separator on.
unfoldable pub exec : ℕ → Bool → List ℕ → Bytes → Option Effect
exec f closing [] buf = some (if closing then closed else nothing)
exec f closing (msg_type ∷ message) buf =
    let msg_value = load32 (receive message buf) 0 in
    let bytes = take (msg_value + 4) (drop 4 message) in
    let read = (if msg_type == cmd_type then receive bytes buf else buf) in
    let called : Option Effect =
      (executer f (load32 read 0) (λ j. read (5 + j)) msg_value >>= λ c. some (run c)) in
    if (msg_type == cmd_type) && ltb max_cmdlen (length bytes)
    then none
    else if (msg_type == connect) && (msg_value == type_connect_exit)
    then some close_up
    else called
