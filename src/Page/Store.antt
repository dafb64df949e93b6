-- ===== src/Page/Store.antt =====
-- What a page of src/disk/page.c promises: a store of numbered entries over a stack of free
-- numbers. `Represents` relates the two, and each operation of the page is matched by the store's.
use dsm_db.Shared.{
  ℕ, ◌+◌, ◌*◌, ◌<◌, ◌≡◌, ◌⊎◌, inl, inr, refl, subst, ◌∙◌, true, false, Option, some, none, List, [],
  ◌∷◌, ◌==◌, if◌then◌else◌, has, arith, Bool-cases, ==_refl, range_from, has-range_from, ◌≤◌, ◌>>=◌,
}
use dsm_db.Shared.Memory.{Bytes}
use dsm_db.Page.{
  Page, entry_limit, page_init, p_entry_pagefull, p_entry_accept, p_entry_itemnotfound,
  get_max_entries, p_entry_insert, p_entry_delete_by_index, p_entry_update_by_index,
  p_entry_read_by_index,
}
use dsm_db.Page.Init.{page_init-IsValid}
use dsm_db.Page.Valid.{IsValid}
use dsm_db.Page.Insert.{
  inserted, inserted-IsValid, p_entry_insert_free, p_entry_insert_full, bytes-inserted,
  bytes-inserted_ne, width-inserted,
}
use dsm_db.Page.Delete.{
  deleted, deleted-IsValid, p_entry_delete_seated, p_entry_delete_missing, bytes-deleted,
  width-deleted,
}
use dsm_db.Page.Access.{
  updated, updated-IsValid, p_entry_update_lem, p_entry_read_lem, bytes-updated, width-updated,
}

-- The entries by number, and the free numbers, the next one first.
pub record Store : Type 0 where
  pub free : List ℕ
  pub entry : ℕ → Bytes

-- `e` with the entry `i` set.
abbrev pub assign : (ℕ → Bytes) → ℕ → Bytes → ℕ → Bytes
assign e i item j = if j == i then item else e j

-- The requests that a caller makes of a page; an item has the width of the page.
pub data Request : Type 0 where
  insert : Bytes → Request
  delete : ℕ → Request
  update : ℕ → Bytes → Request

insert_free : Bytes → Store → List ℕ → ℕ × Store
insert_free item s [] = (p_entry_pagefull, s)
insert_free item s (f ∷ rest) = (f, record { free = rest; entry = assign s.entry f item })

unfoldable pub serve : Store → Request → ℕ × Store
unfolding insert_free
serve s (insert item) = insert_free item s s.free
serve s (delete i) =
    if has i s.free
    then (p_entry_itemnotfound, s)
    else (p_entry_accept, record s { free = i ∷ s.free })
serve s (update i item) =
    if has i s.free
    then (p_entry_itemnotfound, s)
    else (p_entry_accept, record s { entry = assign s.entry i item })

-- The same request, to the page.
unfoldable pub serve_page : Page → Request → Option (ℕ × Page)
serve_page p (insert item) = p_entry_insert p (some item) p.data_width
serve_page p (delete i) = p_entry_delete_by_index p i
serve_page p (update i item) = p_entry_update_by_index p item i

-- The page is valid and holds the store's entries.
pub record Represents (p : Page) (s : Store) : Type 0 where
  pub valid : IsValid p s.free
  pub content :
      (i k : ℕ)
      → i < get_max_entries p.data_width
      → k < p.data_width
      → has i s.free ≡ false
      → p.bytes (i * p.data_width + k) ≡ s.entry i k

-- A request names a slot of the page.
abbrev pub IsInside : ℕ → Request → Type 0
IsInside n (insert item) = Unit
IsInside n (delete i) = i < n
IsInside n (update i item) = i < n

-- The page `p` answers `r` as a store does: with its answer, and with a page that represents the
-- store that is left.
pub record Answers (p : Page) (r : Option (ℕ × Page)) (answer : ℕ × Store) : Type 0 where
  pub after : Page
  pub answered : r ≡ some (answer.0, after)
  pub represents : Represents after answer.1
  pub width : after.data_width ≡ p.data_width

module _ (p : Page) (s : Store) (r : Represents p s) where
  IsValid-free : (xs : List ℕ) → s.free ≡ xs → IsValid p xs
  IsValid-free xs e = subst (IsValid p) e r.valid

  content_inserted :
      (f : ℕ) (rest : List ℕ) (item : Bytes)
      → s.free ≡ f ∷ rest
      → (i k : ℕ) → i < get_max_entries p.data_width
      → k < p.data_width
      → has i rest ≡ false
      → (inserted p f (some item) p.data_width).bytes (i * p.data_width + k)
        ≡ assign s.entry f item i k
  content_inserted f rest item e i k hi hk out = elim (Bool-cases (i == f)) [
    | inl same ↦
        let at_f : i ≡ f = ground arith in
        rw (at_f, ==_refl f)
          (bytes-inserted p f rest item p.data_width k (IsValid-free _ e) (omega arith) hk)
    | inr other ↦ rw other (
        bytes-inserted_ne p f rest (some item) p.data_width (IsValid-free _ e) (omega arith) i k hi
          (ground arith) hk
        ∙ r.content i k hi hk (rw e (ground arith)))
  ]

  insert-Answers :
      (item : Bytes) (xs : List ℕ)
      → s.free ≡ xs
      → Answers p (serve_page p (insert item)) (insert_free item s xs)
  unfolding serve_page insert_free
  insert-Answers item [] e = record {
    after = p;
    answered = p_entry_insert_full p (some item) p.data_width (IsValid-free [] e);
    represents = r;
    width = refl;
  }
  insert-Answers item (f ∷ rest) e = record {
    after = inserted p f (some item) p.data_width;
    answered =
        p_entry_insert_free p f rest (some item) p.data_width (IsValid-free _ e) (omega arith);
    represents = record {
      valid = inserted-IsValid p f rest (some item) p.data_width (IsValid-free _ e) (omega arith);
      content = rw (width-inserted p f (some item) p.data_width) (content_inserted f rest item e);
    };
    width = width-inserted p f (some item) p.data_width;
  }

  module _ (i : ℕ) (inside : i < get_max_entries p.data_width) where
    delete-Answers : Answers p (serve_page p (delete i)) (serve s (delete i))
    unfolding serve_page serve
    delete-Answers = elim (Bool-cases (has i s.free)) [
      | inl missing ↦ rw missing (record {
        after = p;
        answered = p_entry_delete_missing p s.free i r.valid inside missing;
        represents = r;
        width = refl;
      })
      | inr found ↦ rw found (record {
        after = deleted p i;
        answered = p_entry_delete_seated p s.free i r.valid inside found;
        represents = record {
          valid = deleted-IsValid p s.free i r.valid inside found;
          content = rw (width-deleted p i) (λ j k hj hk out.
              bytes-deleted p s.free i r.valid inside j k hj hk
              ∙ r.content j k hj hk (ground arith));
        };
        width = width-deleted p i;
      })
    ]

    update-Answers :
        (item : Bytes) → Answers p (serve_page p (update i item)) (serve s (update i item))
    unfolding serve_page serve
    update-Answers item = elim (Bool-cases (has i s.free)) [
      | inl missing ↦ rw missing (record {
        after = p;
        answered = p_entry_update_lem p s.free i r.valid inside item ∙ rw missing;
        represents = r;
        width = refl;
      })
      | inr found ↦ rw found (record {
        after = updated p item i;
        answered = p_entry_update_lem p s.free i r.valid inside item ∙ rw found;
        represents = record {
          valid = updated-IsValid p s.free i r.valid inside item;
          content = rw (width-updated p item i) (λ j k hj hk out. ground (
            arith,
            bytes-updated p s.free i r.valid inside item j k hk,
            r.content j k hj hk out,
          ));
        };
        width = width-updated p item i;
      })
    ]

-- A page answers each request as the store that it represents, and represents it afterwards.
pub serve_page-Answers :
    (p : Page) (s : Store) (q : Request)
    → Represents p s
    → IsInside (get_max_entries p.data_width) q
    → Answers p (serve_page p q) (serve s q)
unfolding serve
serve_page-Answers p s (insert item) r h = insert-Answers p s r item s.free refl
serve_page-Answers p s (delete i) r h = delete-Answers p s r i h
serve_page-Answers p s (update i item) r h = update-Answers p s r i h item

-- A sequence of requests, with the answers.
unfoldable pub serve_all : Store → List Request → List ℕ × Store
serve_all s [] = ([], s)
serve_all s (q ∷ qs) = let (a, s') = serve s q in let (as', s'') = serve_all s' qs in (a ∷ as', s'')

unfoldable pub serve_page_all : Page → List Request → Option (List ℕ × Page)
serve_page_all p [] = some ([], p)
serve_page_all p (q ∷ qs) = do
  (a, p') ← serve_page p q
  (as', p'') ← serve_page_all p' qs
  some (a ∷ as', p'')

abbrev pub AllInside : ℕ → List Request → Type 0
AllInside n [] = Unit
AllInside n (q ∷ qs) = IsInside n q × AllInside n qs

-- On a page that represents a store, a sequence of requests for slots of the page makes no access
-- outside of the data area, gives the answers of the store, and leaves a page that represents the
-- store that is left.
pub serve_page_all_refines :
    (p : Page) (s : Store) (qs : List Request)
    → Represents p s
    → AllInside (get_max_entries p.data_width) qs
    → (p' : Page) × (serve_page_all p qs ≡ some ((serve_all s qs).0, p'))
      × Represents p' (serve_all s qs).1
unfolding serve_all serve_page_all
serve_page_all_refines p s [] r h = (p, refl, r)
serve_page_all_refines p s (q ∷ qs) r h =
    let a = serve_page-Answers p s q r h.0 in
    let (p', e, r') =
      serve_page_all_refines a.after (serve s q).1 qs a.represents (rw a.width h.1) in
    (p', rw (a.answered, e), r')

-- On a page that represents a store, a read of a slot gives NULL if the slot is free, and else the
-- place of the entry; there each byte is the store's.
pub p_entry_read_represented :
    (p : Page) (s : Store) (i k : ℕ)
    → Represents p s
    → i < get_max_entries p.data_width
    → k < p.data_width
    → (p_entry_read_by_index p i ≡ some (if has i s.free then none else some (i * p.data_width)))
      × ((has i s.free ≡ true) ⊎ (p.bytes (i * p.data_width + k) ≡ s.entry i k))
p_entry_read_represented p s i k r h hk = (
  p_entry_read_lem p s.free i r.valid h,
  elim (Bool-cases (has i s.free)) [
    | inl missing ↦ inl missing
    | inr found ↦ inr (r.content i k h hk found)
  ],
)

-- A new page represents the empty store.
pub page_init-Represents :
    (width id next_id : ℕ) (e : ℕ → Bytes)
    → width ≤ entry_limit
    → Represents
        (page_init width id next_id)
        (record { free = range_from 0 (get_max_entries width); entry = e })
page_init-Represents width id next_id e h = record {
  valid = page_init-IsValid width id next_id h;
  content =
      unfold page_init in
      λ i k hi hk out. absurd (ground (arith, has-range_from i 0 (get_max_entries width)));
}
