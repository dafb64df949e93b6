-- ===== src/Protocol/Client.antt =====
-- client/db_client.c: the commands that the client sends. `atoi` is the C library's, of a string
-- from a character on. A string has fewer than 65,536 characters. `none` is a read of bytes that
-- were never written, or a command that the buffer has no room for.
use dsm_db.Shared.{
  ltb, ℕ, ◌+◌, ◌-◌, Bool, true, false, leb, ◌==◌, ◌&&◌, ◌||◌, Option, some, none, List, [], ◌∷◌,
  ◌++◌, length, if◌then◌else◌, ◌>>=◌, ◌^◌, take, drop,
}
use dsm_db.Protocol.{codes, separate_sign, bufsize, content_state_bit, skip_csbit, bytes16, bytes32}
use dsm_db.Protocol.Cmd.{
  g_create, g_delete, g_insert, g_remove, g_search, g_read, i_create, i_delete, i_insert, i_remove,
  i_search, i_read,
}
use dsm_db.Protocol.MsgType.{cmd}

-- strcmp
abbrev pub same : List ℕ → List ℕ → Bool
same [] [] = true
same [] (c ∷ w) = false
same (c ∷ v) [] = false
same (c ∷ v) (d ∷ w) = (c == d) && same v w

-- -1
abbrev pub minus_one : ℕ
minus_one = 2 ^ 32 - 1

unfoldable pub table_cmd_checker : List ℕ → ℕ
table_cmd_checker w =
    if same w (codes "gcreate")
    then g_create
    else if same w (codes "gdelete")
    then g_delete
    else if same w (codes "ginsert")
    then g_insert
    else if same w (codes "gremove")
    then g_remove
    else if same w (codes "gsearch")
    then g_search + content_state_bit
    else if same w (codes "icreate")
    then i_create
    else if same w (codes "idelete")
    then i_delete
    else if same w (codes "iinsert")
    then i_insert
    else if same w (codes "iremove")
    then i_remove
    else if same w (codes "isearch")
    then i_search + content_state_bit
    else if same w (codes "gread")
    then g_read + content_state_bit
    else if same w (codes "iread")
    then i_read + content_state_bit
    else minus_one

-- `__strcmp a b`: the string `a` starts with `b`.
abbrev pub starts : List ℕ → List ℕ → Bool
starts a [] = true
starts [] (d ∷ b) = false
starts (c ∷ a) (d ∷ b) = (c == d) && starts a b

unfoldable pub str_to_type : List ℕ → ℕ
str_to_type w =
    if starts w (codes "int16")
    then 1
    else if starts w (codes "int32")
    then 2
    else if starts w (codes "int64")
    then 3
    else if starts w (codes "str8")
    then 4
    else if starts w (codes "str16")
    then 5
    else if starts w (codes "str32")
    then 6
    else if starts w (codes "str64")
    then 7
    else if starts w (codes "str128")
    then 8
    else if starts w (codes "str256")
    then 9
    else 0

-- isalpha, isdigit, or an underscore.
abbrev pub is_word : ℕ → Bool
is_word c =
    (leb b'a' c && leb c b'z')
    || (leb b'A' c && leb c b'Z')
    || (leb b'0' c && leb c b'9')
    || (c == b'_')

-- An attribute behind what is written: the lengths of its name, its type, and its name.
abbrev pub put_attr : List ℕ → Option (List ℕ) → ℕ → Option (List ℕ)
put_attr out none type = none
put_attr out (some name) type = some (out ++ bytes16 (length name) ++ bytes16 type ++ name)

-- The loop of `__attr_type_formater`, over the rest of the string. `name` is what the last blank
-- has copied behind `out`.
unfoldable pub type_items : List ℕ → List ℕ → ℕ → ℕ → Option (List ℕ) → List ℕ → Option (List ℕ)
type_items str [] h len name out = put_attr out name (str_to_type (drop h str))
type_items str (c ∷ cs) h len name out =
    let len' = if is_word c then len + 1 else len in
    let named = type_items str cs (h + (len' + 1)) 0 (some (take len' (drop h str))) out in
    let attr =
      (put_attr out name (str_to_type (drop h str)) >>= λ out'.
      type_items str cs (h + (len' + 1)) 0 none out') in
    let on = type_items str cs h len' name out in
    if c == b' ' then named else if c == b',' then attr else on

unfoldable pub attr_type_formater : List ℕ → Option (List ℕ)
attr_type_formater str = type_items str str 0 0 none []

-- The loop of `__attr_value_formater`: `i` is the index of the rest of the string.
unfoldable pub value_items : List ℕ → List ℕ → ℕ → ℕ → List ℕ → List ℕ
value_items str [] i len out = out ++ take len (drop (i - len) str) ++ (0 ∷ [])
value_items str (c ∷ cs) i len out =
    let len' = if is_word c then len + 1 else len in
    let value = value_items str cs (i + 1) 0 (out ++ take len' (drop (i - len') str) ++ (0 ∷ [])) in
    let on = value_items str cs (i + 1) len' out in if c == b',' then value else on

-- What the client does with a command.
pub data Outcome : Type 0 where
  sent : List ℕ → Outcome
  not_found : Outcome

-- The message of a command: its type, the length of the content, the number, and the content.
abbrev pub message_of : ℕ → List ℕ → List ℕ
message_of number content = cmd ∷ bytes32 (length content) ++ bytes32 number ++ content

-- `usable n` is how many bytes a block holds that malloc gives for `n` bytes.
module _ (atoi : List ℕ → ℕ) (usable : ℕ → ℕ) where
  -- The block is asked for with the length of the string: a write behind it is `none`.
  unfoldable pub attr_value_formater : List ℕ → Option (List ℕ)
  attr_value_formater str =
      let values = value_items str str 0 0 [] in
      if ltb (usable (length str)) (length values) then none else some values

  unfoldable pub entry_key_formater : List ℕ → List ℕ
  entry_key_formater str = bytes32 (atoi str)

  -- The loop of `__read_formater`, with the count of the numbers.
  unfoldable pub read_items : List ℕ → List ℕ → ℕ → ℕ → List ℕ → ℕ × List ℕ
  read_items str [] i h out =
      (1, out ++ bytes32 (atoi (drop (i - (if i == h then h else h - 1)) str)))
  read_items str (c ∷ cs) i h out =
      let number =
        read_items str cs (i + 1) 1
          (out ++ bytes32 (atoi (drop (i - (if i == h then h else h - 1)) str))) in
      let on = read_items str cs (i + 1) (h + 1) out in
      if c == b',' then (number.0 + 1, number.1) else on

  unfoldable pub read_formater : List ℕ → List ℕ
  read_formater str = let (count, numbers) = read_items str str 0 0 [] in bytes32 count ++ numbers

  -- The data behind the second separator, by the command. For other commands nothing is copied.
  unfoldable pub format_data : ℕ → List ℕ → Option (List ℕ)
  format_data cmd2 arg =
      if (cmd2 == g_create) || (cmd2 == i_create)
      then attr_type_formater arg
      else if (cmd2 == g_insert) || (cmd2 == i_insert)
      then attr_value_formater arg
      else if (cmd2 == g_remove) || (cmd2 == i_remove) || (cmd2 == g_search) || (cmd2 == i_search)
      then some (entry_key_formater arg)
      else if (cmd2 == g_read) || (cmd2 == i_read)
      then some (read_formater arg)
      else some []

  -- The third argument, with its separator, if there is one.
  unfoldable pub format_args : ℕ → Option (List ℕ) → Option (List ℕ)
  format_args cmd2 none = some []
  format_args cmd2 (some arg) = do data' ← format_data cmd2 arg; some (separate_sign ∷ data')

  unfoldable pub dsm_table_cmd : List ℕ → List ℕ → Option (List ℕ) → Option Outcome
  dsm_table_cmd op table arg = do
    let number = table_cmd_checker op
    let cmd2 = skip_csbit number
    args ← format_args cmd2 arg
    let content = separate_sign ∷ table ++ args
    let message = message_of number content
    if cmd2 == minus_one
        then some not_found
        else if leb bufsize (length message)
        then none
        else some (sent message)
