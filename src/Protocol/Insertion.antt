-- ===== src/Protocol/Insertion.antt =====
-- client/db_client.c, src/network/net.c, src/cmd/cmd.c: `ginsert`, from the client to the call of
-- `db_1_tinsert`.
use dsm_db.Shared.{
  ◌<◌, ℕ, ◌+◌, ◌≤◌, ◌≡◌, refl, Bool, false, leb, ◌==◌, some, List, [], ◌∷◌, ◌++◌, length,
  length-append, arith,
}
use dsm_db.Shared.Memory.{Bytes}
use dsm_db.Protocol.{codes, Spells, bytes32, skip_csbit}
use dsm_db.Protocol.Spells.{Spells-left}
use dsm_db.Protocol.Client.{
  table_cmd_checker, format_data, format_args, dsm_table_cmd, sent, message_of, minus_one,
}
use dsm_db.Protocol.Cmd.{g_insert}
use dsm_db.Protocol.MsgType.{state}
use dsm_db.Protocol.Values.{
  AllWord, AllValues, more_values, terminated, starts_from, attr_value_formater_lem,
}
use dsm_db.Protocol.Reading.{tinsert_format_lem}
use dsm_db.Protocol.Session.{content_of, seen, seen-name, seen-data, exec_lem}
use dsm_db.Protocol.Server.{run, db_1_tinsert, tinsert_format, simple_db_executer, exec}

-- A client that sends the message with a third argument.
pub sent_lem :
    (atoi : List ℕ → ℕ) (usable : ℕ → ℕ) (op name arg data' : List ℕ) (number : ℕ)
    → table_cmd_checker op ≡ number
    → skip_csbit number == minus_one ≡ false
    → format_data atoi usable (skip_csbit number) arg ≡ some data'
    → 4 + length (content_of name data') ≤ 512
    → dsm_table_cmd atoi usable op name (some arg)
      ≡ some (sent (message_of number (content_of name data')))
unfolding dsm_table_cmd format_args
sent_lem atoi usable op name arg data' number e known formed fits =
    let long = length-append name (b'|' ∷ data') in
    let fit : leb 4096 (length (message_of number (content_of name data'))) ≡ false =
      ground (arith, fits) in
    rw (e, formed) (rw (known, fit) refl)

insert_call :
    (f : ℕ) (m : Bytes) (a : ℕ) (values : List ℕ) (n : ℕ)
    → tinsert_format f m a ≡ some values
    → simple_db_executer f m 0 (some a) g_insert n ≡ some (db_1_tinsert 0 values, m)
unfolding simple_db_executer
insert_call f m a values n e = rw e refl

-- The client is given `ginsert`, a table name and values, of letters, digits and underscores, with
-- commas between the values, none of them empty. What it sends makes the server call `db_1_tinsert`
-- with that name and those values, each with a NUL behind it, if the message comes whole with one
-- recv, the content and the number have 512 bytes at most, the byte of the server's stack behind them
-- is 0, and the block that malloc gives the client for as many bytes as the values are typed with
-- holds one byte more, which the client writes.
pub exec-ginsert :
    (atoi : List ℕ → ℕ) (usable : ℕ → ℕ) (f : ℕ) (closing : Bool) (name w : List ℕ)
    (ws : List (List ℕ)) (buf : Bytes)
    → AllWord name
    → AllValues (w ∷ ws)
    → 4 + length (content_of name (terminated (w ∷ ws))) ≤ 512
    → length (w ++ more_values ws) < usable (length (w ++ more_values ws))
    → 512 ≤ f
    → buf (length (bytes32 g_insert ++ content_of name (terminated (w ∷ ws)))) ≡ 0
    → (message : List ℕ) × (memory : Bytes) × (dsm_table_cmd atoi usable
          (codes "ginsert")
          name
          (some (w ++ more_values ws))
        ≡ some (sent message))
      × (exec f closing message buf
          ≡ some (
              run (record {
                request = db_1_tinsert 0 (starts_from (length name + 1) (w ∷ ws));
                reply_type = state;
                memory = memory;
              })))
      × Spells memory 0 (name ++ (0 ∷ []))
      × Spells memory (length name + 1) (terminated (w ∷ ws))
unfolding table_cmd_checker format_data
exec-ginsert atoi usable f closing name w ws buf word all fits larger enough end =
    let data' = terminated (w ∷ ws) in
    let there = seen-data g_insert name data' buf word end in
    let long = length-append name (b'|' ∷ data') in
    (
      message_of g_insert (content_of name data'),
      seen g_insert name data' buf,
      sent_lem atoi usable (codes "ginsert") name (w ++ more_values ws) data' g_insert refl refl
          (attr_value_formater_lem atoi usable w ws all larger) fits,
      exec_lem g_insert name data' buf word end f closing
          (db_1_tinsert 0 (starts_from (length name + 1) (w ∷ ws))) (seen g_insert name data' buf)
          (omega arith) fits
          (insert_call f (seen g_insert name data' buf) (length name + 1)
            (starts_from (length name + 1) (w ∷ ws)) (length data')
            (tinsert_format_lem (seen g_insert name data' buf) (length name + 1) f w ws all there
              (omega (arith, long, fits, enough)))),
      seen-name g_insert name data' buf word end,
      Spells-left (seen g_insert name data' buf) (length name + 1) data' (0 ∷ []) there,
    )
