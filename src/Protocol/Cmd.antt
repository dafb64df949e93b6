-- ===== src/Protocol/Cmd.antt =====
-- include/net.h, client/db_client.h: the numbers of the commands, for general tables and for tables
-- with an index.
use dsm_db.Shared.{ℕ}

abbrev pub g_create : ℕ
g_create = 0

abbrev pub g_delete : ℕ
g_delete = 1

abbrev pub g_insert : ℕ
g_insert = 2

abbrev pub g_remove : ℕ
g_remove = 3

abbrev pub g_search : ℕ
g_search = 4

abbrev pub i_create : ℕ
i_create = 5

abbrev pub i_delete : ℕ
i_delete = 6

abbrev pub i_insert : ℕ
i_insert = 7

abbrev pub i_remove : ℕ
i_remove = 8

abbrev pub i_search : ℕ
i_search = 9

abbrev pub g_read : ℕ
g_read = 10

abbrev pub i_read : ℕ
i_read = 11
