-- ===== src/Protocol/MsgType.antt =====
-- include/net.h: the types of the messages.
use dsm_db.Shared.{ℕ}

abbrev pub connect : ℕ
connect = 0

abbrev pub cmd : ℕ
cmd = 1

abbrev pub content : ℕ
content = 2

abbrev pub state : ℕ
state = 3

abbrev pub content_end : ℕ
content_end = 4
