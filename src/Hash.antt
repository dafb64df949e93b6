-- ===== src/Hash.antt =====
-- common/hash_table.h and common/hash_table.c: the hash table from the names of tables to their
-- blocks. A bucket is a chain of nodes; the list of a bucket is walked under its lock, so a call is
-- one step. A block is a number, and a name is the bytes of a string before its NUL. Calls of malloc
-- succeed here, and what they leave in the link of a new node is an argument of `djb2_push`.
use dsm_db.Shared.{
  ℕ, zero, suc, ◌+◌, ◌-◌, ◌*◌, ◌%◌, ◌^◌, Bool, true, false, ltb, ◌==◌, ◌&&◌, if◌then◌else◌, Option,
  some, none, List, [], ◌∷◌, ◌>>=◌,
}
pub mod Chains
pub mod Lookup
mod Tests

abbrev pub Name : Type 0
Name = List ℕ

-- strcmp, as a test for equal strings
unfoldable pub same_name : Name → Name → Bool
same_name [] [] = true
same_name [] (y ∷ ys) = false
same_name (x ∷ xs) [] = false
same_name (x ∷ xs) (y ∷ ys) = (x == y) && same_name xs ys

-- A char that is promoted to int and added to an unsigned long: a byte from 128 on is negative.
unfoldable pub char_value : ℕ → ℕ
char_value c = if ltb c 128 then c else 2 ^ 64 - 256 + c

unfoldable pub hash_from : ℕ → Name → ℕ
hash_from hash [] = hash
hash_from hash (c ∷ cs) =
    hash_from (((hash * 32 % 2 ^ 64 + hash) % 2 ^ 64 + char_value c) % 2 ^ 64) cs

unfoldable pub hash_of : Name → ℕ
hash_of s = hash_from 5381 s

-- The nodes behind a pointer: none, one that was never written, or a node and those behind it.
pub data Chain : Type 0 where
  null : Chain
  wild : Chain
  node : Name → ℕ → Chain → Chain

-- `struct djb2_hash`, without the locks
pub record Table : Type 0 where
  pub buckets : ℕ
  pub hash_table : ℕ → Chain

unfoldable pub djb2_hash_create : ℕ → Table
djb2_hash_create buckets = record { buckets = buckets; hash_table = λ _. null }

abbrev pub bucket_index : Table → Name → ℕ
bucket_index t s = hash_of s % t.buckets

abbrev pub chain_of : Table → Name → Chain
chain_of t s = t.hash_table (bucket_index t s)

abbrev pub set_chain : Table → ℕ → Chain → Table
set_chain t i c = record t { hash_table = λ j. if j == i then c else t.hash_table j }

-- The loop of `djb2_search`: the block or NULL; `none` follows a pointer that was never written.
unfoldable pub search_chain : Chain → Name → Option (Option ℕ)
search_chain null s = some none
search_chain wild s = none
search_chain (node k b rest) s =
    let behind = search_chain rest s in if same_name k s then some (some b) else behind

unfoldable pub djb2_search : Table → Name → Option (Option ℕ)
djb2_search t s = search_chain (chain_of t s) s

-- What a push makes of the bucket: the name is compared with the first node's.
unfoldable pub push_chain : Chain → Chain → Name → ℕ → Option Chain
push_chain junk null s b = some (node s b junk)
push_chain junk wild s b = none
push_chain junk (node k c rest) s b =
    some (if same_name s k then node k c rest else node s b (node k c rest))

unfoldable pub djb2_push : Table → Chain → Name → ℕ → Option Table
djb2_push t junk s b = do
  c ← push_chain junk (chain_of t s) s b
  some (set_chain t (bucket_index t s) c)

-- The loop of `djb2_pop`: the first node with the name goes.
unfoldable pub pop_chain : Chain → Name → Option Chain
pop_chain null s = some null
pop_chain wild s = none
pop_chain (node k b rest) s =
    let behind = pop_chain rest s in
    if same_name k s then some rest else (behind >>= λ c. some (node k b c))

unfoldable pub djb2_pop : Table → Name → Option Table
djb2_pop t s = do c ← pop_chain (chain_of t s) s; some (set_chain t (bucket_index t s) c)
