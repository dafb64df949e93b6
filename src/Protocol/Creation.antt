-- ===== src/Protocol/Creation.antt =====
-- client/db_client.c, src/network/net.c, src/cmd/cmd.c: `gcreate`, from the client to the call of
-- `db_1_tcreate`.
use dsm_db.Shared.{
  ℕ, ◌+◌, ◌≤◌, ◌≡◌, refl, Bool, some, List, [], ◌∷◌, ◌++◌, length, length-append, arith,
}
use dsm_db.Shared.Memory.{Bytes}
use dsm_db.Protocol.{codes, Spells, bytes32}
use dsm_db.Protocol.Spells.{Spells-left}
use dsm_db.Protocol.Client.{table_cmd_checker, format_data, dsm_table_cmd, sent, message_of}
use dsm_db.Protocol.Cmd.{g_create}
use dsm_db.Protocol.MsgType.{state}
use dsm_db.Protocol.Values.{AllWord}
use dsm_db.Protocol.Types.{
  AttrType, Attr, AllNamed, typed, more_attrs, packed, attr_type_formater_lem,
}
use dsm_db.Protocol.Session.{content_of, seen, seen-name, seen-data, exec_lem}
use dsm_db.Protocol.Insertion.{sent_lem}
use dsm_db.Protocol.Server.{run, db_1_tcreate, create_format, simple_db_executer, exec}
use dsm_db.Protocol.Packed.{
  attrs_at, closed, Named, behind_header, Spells-closed, Named-closed, create_format_lem,
}

create_call :
    (f : ℕ) (m : Bytes) (a n : ℕ) (attrs : List (ℕ × ℕ)) (m' : Bytes)
    → create_format m a n ≡ some (attrs, m')
    → simple_db_executer f m 0 (some a) g_create n ≡ some (db_1_tcreate 0 attrs, m')
unfolding simple_db_executer
create_call f m a n attrs m' e = rw e refl

-- The client is given `gcreate`, a table name and typed attributes with commas between them, all
-- names of letters, digits and underscores and no attribute's name empty. What it sends makes the
-- server call `db_1_tcreate` with that name, and with the names of the attributes, each with a NUL
-- behind it, and the sizes of their types, if the message comes whole with one recv, the content and
-- the number have 512 bytes at most and the byte of the server's stack behind them is 0.
pub exec-gcreate :
    (atoi : List ℕ → ℕ) (usable : ℕ → ℕ) (f : ℕ) (closing : Bool) (name n : List ℕ) (t : AttrType)
    (others : List Attr) (buf : Bytes)
    → AllWord name
    → AllNamed ((n, t) ∷ others)
    → 4 + length (content_of name (packed ((n, t) ∷ others))) ≤ 512
    → buf (length (bytes32 g_create ++ content_of name (packed ((n, t) ∷ others)))) ≡ 0
    → (message : List ℕ) × (memory : Bytes) × (dsm_table_cmd atoi usable
          (codes "gcreate")
          name
          (some (typed (n, t) (more_attrs others)))
        ≡ some (sent message))
      × (exec f closing message buf
          ≡ some (
              run (record {
                request = db_1_tcreate 0 (attrs_at (length name + 1) ((n, t) ∷ others));
                reply_type = state;
                memory = memory;
              })))
      × Spells memory 0 (name ++ (0 ∷ []))
      × Named memory (length name + 1) ((n, t) ∷ others)
unfolding table_cmd_checker format_data
exec-gcreate atoi usable f closing name n t others buf word all fits end =
    let attrs = (n, t) ∷ others in
    let data' = packed attrs in
    let m = seen g_create name data' buf in
    let p = length name + 1 in
    let there : Spells m p data' =
      Spells-left m p data' (0 ∷ []) (seen-data g_create name data' buf word end) in
    let long = length-append name (b'|' ∷ data') in
    (
      message_of g_create (content_of name data'),
      closed m p attrs,
      sent_lem atoi usable (codes "gcreate") name (typed (n, t) (more_attrs others)) data' g_create
          refl refl (attr_type_formater_lem n t others all) fits,
      exec_lem g_create name data' buf word end f closing (db_1_tcreate 0 (attrs_at p attrs))
          (closed m p attrs) (omega arith) fits
          (create_call f m p (length data') (attrs_at p attrs) (closed m p attrs)
            (create_format_lem m p n t others all.0.0 (omega (arith, long, fits)) there)),
      Spells-closed m p 0 (name ++ (0 ∷ [])) attrs (omega (arith, length-append name (0 ∷ [])))
          (seen-name g_create name data' buf word end),
      Named-closed m p n t others (behind_header m p n t others there),
    )
