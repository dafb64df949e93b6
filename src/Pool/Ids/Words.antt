-- ===== src/Pool/Ids/Words.antt =====
-- src/pool/pool.c: a page whose entries are words, in the slots 0, 1, ..., as a stack: an insertion
-- puts a word on top, and the deletion of the last entry takes it off.
use dsm_db.Shared.{
  ℕ, suc, ◌+◌, ◌-◌, ◌*◌, ◌^◌, ◌≤◌, ◌<◌, ◌≡◌, refl, sym, ap, subst, ◌∙◌, false, some, List, [], ◌∷◌,
  ◌++◌, has, length, length-append, range_from, arith, length-range_from, has-range_from_below,
}
use dsm_db.Shared.Memory.{Bytes, load32, word_bytes, load32_lem, load32_same}
use dsm_db.Page.{
  Page, p_entry_pagefull, p_entry_accept, get_max_entries, p_entry_insert, p_entry_delete_by_index,
  p_entry_read_by_index, p_entry_set_nextpid, p_entry_set_pagetype, page_init,
}
use dsm_db.Page.Valid.{IsValid, examine_checksum_lem, update_checksum_lem}
use dsm_db.Page.Init.{page_init-IsValid}
use dsm_db.Page.Insert.{
  inserted, inserted-IsValid, p_entry_insert_free, p_entry_insert_full, bytes-inserted,
  bytes-inserted_ne, width-inserted, page_id-inserted,
}
use dsm_db.Page.Delete.{
  deleted, deleted-IsValid, p_entry_delete_seated, bytes-deleted, width-deleted, page_id-deleted,
}
use dsm_db.Page.Access.{p_entry_read_lem}

-- The words by their number, the last one first.
abbrev pub Words : Bytes → List ℕ → Type 0
Words m [] = Unit
Words m (w ∷ ws) = (load32 m (length ws * 4) ≡ w) × Words m ws

-- As many words as a page of width 4 has room for.
abbrev pub room : ℕ
room = 677

abbrev pub free_slots : ℕ → List ℕ
free_slots n = range_from n (room - n)

pub record IsStack (p : Page) (id : ℕ) (ws : List ℕ) : Type 0 where
  pub valid : IsValid p (free_slots (length ws))
  pub width : p.data_width ≡ 4
  pub page_id : p.page_id ≡ id
  pub words : Words p.bytes ws
  pub fits : length ws ≤ room

max_words : (p : Page) → p.data_width ≡ 4 → get_max_entries p.data_width ≡ room
unfolding get_max_entries
max_words p e = rw e refl

Words-same :
    (m m' : Bytes) (ws : List ℕ)
    → ((i k : ℕ) → i < length ws → k < 4 → m' (i * 4 + k) ≡ m (i * 4 + k))
    → Words m ws
    → Words m' ws
Words-same m m' [] same h = tt
Words-same m m' (w ∷ ws) same h = (
  load32_same m m' (length ws * 4) (λ k hk. same (length ws) k (omega arith) hk) ∙ h.0,
  Words-same m m' ws (λ i k hi hk. same i k (omega arith) hk) h.1,
)

free_slots_step : (n : ℕ) → n < room → free_slots n ≡ n ∷ free_slots (suc n)
free_slots_step n h = let e : room - n ≡ suc (room - suc n) = omega arith in ap (range_from n) e

free_slots_none : (n : ℕ) → n ≡ room → free_slots n ≡ []
free_slots_none n h = let e : room - n ≡ 0 = omega arith in ap (range_from n) e

module _ (p : Page) (id : ℕ) (ws : List ℕ) (st : IsStack p id ws) where
  in_max : (j : ℕ) → j < room → j < get_max_entries p.data_width
  in_max j h = omega (arith, max_words p st.width)

  -- The count of the words is the page's count of records.
  pub record_num_lem : p.record_num ≡ length ws
  record_num_lem = omega (
    arith,
    st.valid.count,
    length-range_from (length ws) (room - length ws),
    max_words p st.width,
    st.fits,
  )

  module _ (w : ℕ) (small : w < 2 ^ 32) (left : length ws < room) where
    pushed : Page
    pushed = inserted p (length ws) (some (word_bytes w)) 4

    four : 4 ≤ p.data_width
    four = omega (arith, st.width)

    free_there : IsValid p (length ws ∷ free_slots (suc (length ws)))
    free_there = subst (IsValid p) (free_slots_step (length ws) left) st.valid

    word-pushed : load32 pushed.bytes (length ws * 4) ≡ w
    unfolding pushed
    word-pushed = load32_lem pushed.bytes (length ws * 4) w small (λ k hk.
        ap (λ d. pushed.bytes (length ws * d + k)) (sym st.width)
        ∙ bytes-inserted p (length ws) (free_slots (suc (length ws))) (word_bytes w) 4 k free_there
            four hk)

    Words-pushed : Words pushed.bytes ws
    unfolding pushed
    Words-pushed = Words-same p.bytes pushed.bytes ws same st.words
      where
        same : (i k : ℕ) → i < length ws → k < 4 → pushed.bytes (i * 4 + k) ≡ p.bytes (i * 4 + k)
        same i k hi hk =
            subst (λ d. pushed.bytes (i * d + k) ≡ p.bytes (i * d + k)) st.width
              (bytes-inserted_ne p (length ws) (free_slots (suc (length ws))) (some (word_bytes w))
                4 free_there four i k (in_max i (omega arith)) (omega arith) (omega (arith, four)))

    -- With room left, a word goes on top.
    pub push :
        (p' : Page) × (p_entry_insert p (some (word_bytes w)) 4 ≡ some (length ws, p'))
        × IsStack p' id (w ∷ ws)
    unfolding pushed
    push = (
      pushed,
      p_entry_insert_free p (length ws) (free_slots (suc (length ws))) (some (word_bytes w)) 4
          free_there four,
      record {
        valid =
            inserted-IsValid p (length ws) (free_slots (suc (length ws))) (some (word_bytes w)) 4
              free_there four;
        width = width-inserted p (length ws) (some (word_bytes w)) 4 ∙ st.width;
        page_id = page_id-inserted p (length ws) (some (word_bytes w)) 4 ∙ st.page_id;
        words = (word-pushed, Words-pushed);
        fits = left;
      },
    )

  -- Without room, an insertion changes nothing.
  pub push_full :
      (w : ℕ)
      → length ws ≡ room
      → p_entry_insert p (some (word_bytes w)) 4 ≡ some (p_entry_pagefull, p)
  push_full w full =
      p_entry_insert_full p (some (word_bytes w)) 4
        (subst (IsValid p) (free_slots_none (length ws) full) st.valid)

-- The last word is read, and taken off.
module _ (p : Page) (id w : ℕ) (ws : List ℕ) (st : IsStack p id (w ∷ ws)) where
  last_inside : length ws < get_max_entries p.data_width
  last_inside = omega (arith, max_words p st.width, st.fits)

  last_taken : has (length ws) (free_slots (suc (length ws))) ≡ false
  last_taken = has-range_from_below (length ws) (suc (length ws)) _ (omega arith)

  pub read_last : p_entry_read_by_index p (length ws) ≡ some (some (length ws * 4))
  read_last =
      p_entry_read_lem p (free_slots (suc (length ws))) (length ws) st.valid last_inside
      ∙ rw last_taken (ap (λ d. some (some (length ws * d))) st.width)

  pub pop :
      (p' : Page) × (p_entry_delete_by_index p (length ws) ≡ some (p_entry_accept, p'))
      × IsStack p' id ws
  pop = (
    deleted p (length ws),
    p_entry_delete_seated p (free_slots (suc (length ws))) (length ws) st.valid last_inside
        last_taken,
    record {
      valid =
          subst (IsValid (deleted p (length ws)))
            (sym (free_slots_step (length ws) (omega (arith, st.fits))))
            (deleted-IsValid p (free_slots (suc (length ws))) (length ws) st.valid last_inside
              last_taken);
      width = width-deleted p (length ws) ∙ st.width;
      page_id = page_id-deleted p (length ws) ∙ st.page_id;
      words = Words-same p.bytes (deleted p (length ws)).bytes ws same st.words.1;
      fits = omega (arith, st.fits);
    },
  )
    where
      same :
          (i k : ℕ)
          → i < length ws
          → k < 4
          → (deleted p (length ws)).bytes (i * 4 + k) ≡ p.bytes (i * 4 + k)
      same i k hi hk =
          subst (λ d. (deleted p (length ws)).bytes (i * d + k) ≡ p.bytes (i * d + k)) st.width
            (bytes-deleted p (free_slots (suc (length ws))) (length ws) st.valid last_inside i k
              (omega (arith, last_inside)) (omega (arith, st.width)))

-- Any word is read at its number.
pub read_word :
    (p : Page) (id w : ℕ) (above below : List ℕ)
    → IsStack p id (above ++ (w ∷ below))
    → (p_entry_read_by_index p (length below) ≡ some (some (length below * 4)))
      × (load32 p.bytes (length below * 4) ≡ w)
read_word p id w above below st =
    let n : length (above ++ (w ∷ below)) ≡ length above + suc (length below) =
      length-append above (w ∷ below) in
    let taken : has (length below) (free_slots (length (above ++ (w ∷ below)))) ≡ false =
      has-range_from_below (length below) _ _ (omega (arith, n)) in
    (
      p_entry_read_lem p (free_slots (length (above ++ (w ∷ below)))) (length below) st.valid
            (omega (arith, max_words p st.width, st.fits, n))
          ∙ rw taken (ap (λ d. some (some (length below * d))) st.width),
      word_below p.bytes above st.words,
    )
  where
    word_below :
        (m : Bytes) (xs : List ℕ) → Words m (xs ++ (w ∷ below)) → load32 m (length below * 4) ≡ w
    word_below m [] h = h.0
    word_below m (x ∷ xs) h = word_below m xs h.1

-- The header setters keep the words.
pub set_nextpid-IsStack :
    (p : Page) (id : ℕ) (ws : List ℕ) (next_id : ℕ)
    → IsStack p id ws
    → IsStack (p_entry_set_nextpid p next_id).1 id ws
unfolding p_entry_set_nextpid
set_nextpid-IsStack p id ws next_id st = rw (examine_checksum_lem p st.valid.checked) (record {
  valid = record {
    checked = update_checksum_lem _;
    narrow = st.valid.narrow;
    count = st.valid.count;
    head = st.valid.head;
    distinct = st.valid.distinct;
    below = st.valid.below;
    linked = st.valid.linked;
    seated = st.valid.seated;
  };
  width = st.width;
  page_id = st.page_id;
  words = st.words;
  fits = st.fits;
})

pub new_store_page :
    (id type next_id : ℕ) → IsStack (p_entry_set_pagetype (page_init 4 id next_id) type) id []
unfolding p_entry_set_pagetype page_init get_max_entries
new_store_page id type next_id =
    let v = page_init-IsValid 4 id next_id (omega arith) in
    record {
      valid = record {
        checked = update_checksum_lem _;
        narrow = v.narrow;
        count = v.count;
        head = v.head;
        distinct = v.distinct;
        below = v.below;
        linked = v.linked;
        seated = v.seated;
      };
      width = refl;
      page_id = refl;
      words = tt;
      fits = omega arith;
    }
