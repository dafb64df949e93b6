-- ===== src/Protocol/Tests.antt =====
-- Commands with their arguments: runs, and the theorems at inputs that meet their conditions.
use dsm_db.Shared.{
  ℕ, ◌+◌, ◌-◌, ◌%◌, ◌^◌, ◌≡◌, refl, false, some, none, List, [], ◌∷◌, ◌++◌, length, arith,
}
use dsm_db.Shared.Memory.{Bytes, load32}
use dsm_db.Hash.{char_value}
use dsm_db.Protocol.{codes, Spells, bytes32, receive}
use dsm_db.Protocol.MsgType.{state}
use dsm_db.Protocol.Client.{
  table_cmd_checker, str_to_type, type_items, attr_type_formater, value_items, attr_value_formater,
  entry_key_formater, read_items, read_formater, format_data, format_args, dsm_table_cmd, sent,
}
use dsm_db.Protocol.Server.{
  run, db_1_tinsert, db_1_tcreate, type_to_size, create_items, create_format, tinsert_items,
  tinsert_format, uint32_items, to_uint32, strlen, iinsert_items, iinsert_format,
  simple_db_executer, reply_of, separator, executer, exec,
}
use dsm_db.Protocol.Values.{more_values, terminated, starts_from}
use dsm_db.Protocol.Types.{int32, str16, typed, more_attrs}
use dsm_db.Protocol.Packed.{attrs_at, Named}
use dsm_db.Protocol.Insertion.{exec-ginsert}
use dsm_db.Protocol.Creation.{exec-gcreate}
use dsm_db.Protocol.Numbers.{decimal, to_uint32-decimal}

-- All that the client and the server compute with.
program : Unit {0}
unfolding table_cmd_checker str_to_type type_items attr_type_formater value_items
    attr_value_formater entry_key_formater read_items read_formater format_data format_args
    dsm_table_cmd type_to_size create_items create_format tinsert_items tinsert_format uint32_items
    to_uint32 strlen iinsert_items iinsert_format simple_db_executer reply_of separator executer
    exec receive load32 char_value
program = tt

-- A number of one digit.
abbrev atoi : List ℕ → ℕ
atoi [] = 0
atoi (c ∷ w) = c - 48

-- A malloc whose blocks are 8 bytes longer than asked for.
abbrev usable : ℕ → ℕ
usable n = n + 8

abbrev zeros : Bytes
zeros j = 0

abbrev cars : List ℕ
cars = codes "cars"

types_sent :
    attr_type_formater (codes "id int32,name str16")
    ≡ some (2 ∷ 0 ∷ 2 ∷ 0 ∷ codes "id" ++ (4 ∷ 0 ∷ 5 ∷ 0 ∷ codes "name"))
unfolding program
types_sent = refl

values_sent :
    attr_value_formater atoi usable (codes "12,abc")
    ≡ some (codes "12" ++ (0 ∷ codes "abc" ++ (0 ∷ [])))
unfolding program
values_sent = refl

numbers_sent : read_formater atoi usable (codes "7,3") ≡ bytes32 2 ++ (bytes32 7 ++ bytes32 3)
unfolding program
numbers_sent = refl

key_read : to_uint32 9 (receive (codes "1024") zeros) 0 ≡ some 1024
unfolding program
key_read = refl

-- The key and one value: what is allocated has no room for it.
entry_overflows :
    iinsert_format 30 (receive (codes "1024" ++ (0 ∷ codes "red" ++ (0 ∷ []))) zeros) 0 ≡ none
unfolding program
entry_overflows = refl

-- With a key that is long enough, the entry has the text of the values behind the key, and no key.
entry_lacks_key :
    iinsert_format 30 (receive (codes "000001024" ++ (0 ∷ codes "red" ++ (0 ∷ []))) zeros) 0
    ≡ some (codes "red")
unfolding program
entry_lacks_key = refl

exec-ginsert_example :
    (message : List ℕ) × (memory : Bytes) × (dsm_table_cmd atoi usable
        (codes "ginsert")
        cars
        (some (codes "12" ++ more_values (codes "abc" ∷ [])))
      ≡ some (sent message))
    × (exec 512 false message zeros
        ≡ some (
            run (record {
              request =
                  db_1_tinsert 0 (starts_from (length cars + 1) (codes "12" ∷ codes "abc" ∷ []));
              reply_type = state;
              memory = memory;
            })))
    × Spells memory 0 (cars ++ (0 ∷ []))
    × Spells memory (length cars + 1) (terminated (codes "12" ∷ codes "abc" ∷ []))
exec-ginsert_example =
    exec-ginsert atoi usable 512 false cars (codes "12") (codes "abc" ∷ []) zeros
      (refl, (refl, (refl, (refl, tt))))
      ((omega arith, (refl, (refl, tt))), ((omega arith, (refl, (refl, (refl, tt)))), tt))
      (omega arith) (omega arith) (omega arith) refl

exec-gcreate_example :
    (message : List ℕ) × (memory : Bytes) × (dsm_table_cmd atoi usable
        (codes "gcreate")
        cars
        (some (typed (codes "id", int32) (more_attrs ((codes "hue", str16) ∷ []))))
      ≡ some (sent message))
    × (exec 512 false message zeros
        ≡ some (
            run (record {
              request =
                  db_1_tcreate 0
                    (attrs_at (length cars + 1) ((codes "id", int32) ∷ (codes "hue", str16) ∷ []));
              reply_type = state;
              memory = memory;
            })))
    × Spells memory 0 (cars ++ (0 ∷ []))
    × Named memory (length cars + 1) ((codes "id", int32) ∷ (codes "hue", str16) ∷ [])
exec-gcreate_example =
    exec-gcreate atoi usable 512 false cars (codes "id") int32 ((codes "hue", str16) ∷ []) zeros
      (refl, (refl, (refl, (refl, tt))))
      ((omega arith, (refl, (refl, tt))), ((omega arith, (refl, (refl, (refl, tt)))), tt))
      (omega arith) refl

digits_there : Spells (receive (codes "1024") zeros) 0 (codes "1024" ++ (0 ∷ []))
unfolding receive
digits_there = (refl, (refl, (refl, (refl, (refl, tt)))))

to_uint32-decimal_example :
    to_uint32 9 (receive (codes "1024") zeros) 0 ≡ some (decimal (codes "1024") % 2 ^ 32)
to_uint32-decimal_example =
    to_uint32-decimal 9 (receive (codes "1024") zeros) 0 (codes "1024")
      (
        (omega arith, omega arith),
        (
          (omega arith, omega arith),
          ((omega arith, omega arith), ((omega arith, omega arith), tt)),
        ),
      )
      (omega arith) digits_there (omega arith)
