-- ===== src/Hash/Tests.antt =====
-- A table of two buckets: runs, and the theorems at inputs that meet their conditions.
use dsm_db.Shared.{◌≡◌, refl, if◌then◌else◌, some, none, [], ◌∷◌, ◌>>=◌}
use dsm_db.Hash.{
  Name, same_name, char_value, hash_from, hash_of, null, node, Table, djb2_hash_create,
  search_chain, djb2_search, push_chain, djb2_push, pop_chain, djb2_pop,
}
use dsm_db.Hash.Lookup.{IsTable, djb2_hash_create-IsTable, djb2_push_lem, djb2_pop_lem}

-- All that a run of a table computes with.
program : Unit {0}
unfolding same_name char_value hash_from hash_of djb2_hash_create search_chain djb2_search
    push_chain djb2_push pop_chain djb2_pop
program = tt

abbrev users : Name
users = 117 ∷ 115 ∷ 101 ∷ 114 ∷ 115 ∷ []

abbrev items : Name
items = 105 ∷ 116 ∷ 101 ∷ 109 ∷ 115 ∷ []

abbrev fresh : Table
fresh = djb2_hash_create 1

-- The value of the published function for "users"
hash_users : hash_of users ≡ 210_730_549_111
unfolding program
hash_users = refl

found_users :
    (do t ← djb2_push fresh null users 7; t' ← djb2_push t null items 8; djb2_search t' users)
    ≡ some (some 7)
unfolding program
found_users = refl

fresh_out : (s : Name) → djb2_search fresh s ≡ some none
unfolding program
fresh_out s = refl

djb2_push_lem_example :
    (t' : Table) × (djb2_push fresh null users 7 ≡ some t')
    × IsTable t'
    × (djb2_search t' items
        ≡ (if same_name items users then some (some 7) else djb2_search fresh items))
djb2_push_lem_example =
    djb2_push_lem fresh users items 7 (djb2_hash_create-IsTable 1) (fresh_out users)

-- Both names in the one bucket, "users" behind.
abbrev two : Table
two = record { buckets = 1; hash_table = λ _. node items 8 (node users 7 null) }

two-IsTable : IsTable two
unfolding search_chain same_name
two-IsTable i = (refl, (refl, tt))

djb2_pop_lem_example :
    (t' : Table) × (djb2_pop two users ≡ some t')
    × IsTable t'
    × (djb2_search t' users ≡ (if same_name users users then some none else djb2_search two users))
djb2_pop_lem_example = djb2_pop_lem two users users two-IsTable
