-- ===== src/Blink/Leaf/Arrays.antt =====
-- src/index/b_page.c: what the shifting loops of the leaf page leave at each index.
use dsm_db.Shared.{ℕ, zero, suc, ◌+◌, ◌-◌, ◌≡◌, ltb, leb, ◌&&◌, if◌then◌else◌, ◌∙◌, arith}
use dsm_db.Blink.Leaf.{Entry, cleared, update, shift_up, shift_down, clear_entries}

pub shift_up_lem :
    (a : ℕ → Entry) (index n j : ℕ)
    → shift_up a index n j ≡ (if ltb index j && leb j (index + n) then a (j - 1) else a j)
unfolding shift_up
shift_up_lem a index zero j = ground arith
shift_up_lem a index (suc n) j =
    shift_up_lem (update a (index + n + 1) (a (index + n))) index n j ∙ step
  where
    moved : ℕ → Entry
    moved = update a (index + n + 1) (a (index + n))

    step :
        (if ltb index j && leb j (index + n) then moved (j - 1) else moved j)
        ≡ (if ltb index j && leb j (index + suc n) then a (j - 1) else a j)
    step = ground (arith)

pub shift_down_lem :
    (a : ℕ → Entry) (index n j : ℕ)
    → shift_down a index n j ≡ (if leb index j && ltb j (index + n) then a (j + 1) else a j)
unfolding shift_down
shift_down_lem a index zero j = ground arith
shift_down_lem a index (suc n) j =
    shift_down_lem (update a index (a (index + 1))) (index + 1) n j ∙ step
  where
    moved : ℕ → Entry
    moved = update a index (a (index + 1))

    step :
        (if leb (index + 1) j && ltb j (index + 1 + n) then moved (j + 1) else moved j)
        ≡ (if leb index j && ltb j (index + suc n) then a (j + 1) else a j)
    step = ground arith

pub clear_entries_lem :
    (a : ℕ → Entry) (i n j : ℕ)
    → clear_entries a i n j ≡ (if leb i j && ltb j (i + n) then cleared else a j)
unfolding clear_entries
clear_entries_lem a i zero j = ground arith
clear_entries_lem a i (suc n) j = clear_entries_lem (update a i cleared) (i + 1) n j ∙ ground arith
