-- ===== src/Pool/Ids/Stack.antt =====
-- src/pool/pool.c: `allocate_pages_id` and `free_pages_id` as calls on a counter and a stack of
-- freed ids, whatever page the entries lie in.
use dsm_db.Shared.{
  ℕ, zero, suc, ◌+◌, ◌*◌, ◌%◌, ◌^◌, ◌<◌, ◌≡◌, ◌≢◌, refl, sym, ap, subst, ◌∙◌, true, false, ◌==◌,
  some, List, [], ◌∷◌, ◌++◌, has, IsDistinct, AllBelow, length, length-append, arith, has-tail,
}
use dsm_db.Disk.{Storage, dk_read_page_by_pid}
use dsm_db.Shared.Memory.{load32}
use dsm_db.Page.{Page, p_entry_read_by_index, p_entry_delete_by_index, page_id_null}
use dsm_db.Pool.Transfer.{pageloadaccp, dirtycheck, page_bring_in}
use dsm_db.Pool.Ids.{PageIds, prev_id_of, allocate_bottom, allocate_top, allocate_page_id}
use dsm_db.Pool.Ids.Words.{IsStack, record_num_lem, read_last, pop}
use dsm_db.Pool.Ids.Chain.{IsPageStorage, StorePage, id_bound, IsOlder, Below}

-- The next new id, and the freed ids, the last one first.
pub record FreeIds : Type 0 where
  pub next : ℕ
  pub freed : List ℕ

unfoldable pub take_freed : FreeIds → List ℕ → ℕ × FreeIds
take_freed f [] = (f.next, record { next = (f.next + 1) % 2 ^ 32; freed = [] })
take_freed f (x ∷ xs) = (x, record { next = f.next; freed = xs })

unfoldable pub take_id : FreeIds → ℕ × FreeIds
unfolding take_freed
take_id f = take_freed f f.freed

unfoldable pub give_id : ℕ → FreeIds → FreeIds
give_id x f = record { next = f.next; freed = x ∷ f.freed }

unfoldable pub take_ids : ℕ → FreeIds → List ℕ × FreeIds
take_ids zero f = ([], f)
take_ids (suc n) f = let (x, f') = take_id f in let (xs, f'') = take_ids n f' in (x ∷ xs, f'')

unfoldable pub give_ids : List ℕ → FreeIds → FreeIds
give_ids [] f = f
give_ids (x ∷ xs) f = give_ids xs (give_id x f)

-- An id that may be freed: it is not free, not that of the first store page, and its offset in the
-- file fits in 32 bits.
pub record CanGive (root : ℕ) (f : FreeIds) (x : ℕ) : Type 0 where
  pub fresh : has x f.freed ≡ false
  pub other : x ≢ root
  pub small : x < id_bound

abbrev pub CanGiveAll : ℕ → FreeIds → List ℕ → Type 0
CanGiveAll root f [] = Unit
CanGiveAll root f (x ∷ xs) = CanGive root f x × CanGiveAll root (give_id x f) xs

-- The steps of an allocation, by what is read.
module _ {File : Type 0} (s : Storage File Page) (fuel : ℕ) (i : PageIds File) where
  pub bottom : i.page.record_num ≡ 1 → allocate_page_id s fuel i ≡ allocate_bottom s fuel i
  unfolding allocate_page_id
  bottom one = let e : (i.page.record_num == 1) ≡ true = ground arith in rw e refl

  top : i.page.record_num ≢ 1 → allocate_page_id s fuel i ≡ allocate_top s i
  unfolding allocate_page_id
  top more = let e : (i.page.record_num == 1) ≡ false = ground arith in rw e refl

  bottom_counts :
      p_entry_read_by_index i.page 0 ≡ some (some 0)
      → load32 i.page.bytes 0 ≡ page_id_null
      → allocate_bottom s fuel i
        ≡ some (i.page_counter, record i { page_counter = (i.page_counter + 1) % 2 ^ 32 })
  unfolding allocate_bottom prev_id_of
  bottom_counts read null =
      let e : (load32 i.page.bytes 0 == page_id_null) ≡ true = ground arith in rw (read, e) refl

  pub bottom_brings :
      (p : Page) (prev r : ℕ)
      → p_entry_read_by_index i.page 0 ≡ some (some 0)
      → load32 i.page.bytes 0 ≡ prev
      → prev ≢ page_id_null
      → page_bring_in s fuel i.file prev i.page ≡ some (r, p)
      → allocate_bottom s fuel i ≡ some (i.page.page_id, record i { page = p })
  unfolding allocate_bottom prev_id_of
  bottom_brings p prev r read word some_page brings =
      let e : (load32 i.page.bytes 0 == page_id_null) ≡ false = ground arith in
      rw (read, e, word, brings) refl

  top_pops :
      (p : Page) (n at r : ℕ)
      → (i.page.record_num + 65535) % 65536 ≡ n
      → p_entry_read_by_index i.page n ≡ some (some at)
      → p_entry_delete_by_index i.page n ≡ some (r, p)
      → allocate_top s i ≡ some (load32 i.page.bytes at, record i { page = p })
  unfolding allocate_top
  top_pops p n at r last read deletes = rw (last, read, deletes) refl

module _ {File : Type 0} (s : Storage File Page) (good : IsPageStorage s) (root : ℕ) where
  -- The page of `ft_block` with its entries, the pages below it, and all that is free.
  pub record Holds (i : PageIds File) (f : FreeIds) (id prev : ℕ) (ids : List ℕ)
      (bs : List StorePage) (xs : List ℕ) : Type 0 where
    pub counter : i.page_counter ≡ f.next
    pub dirty : dirtycheck i.flags ≡ true
    pub stack : IsStack i.page id (ids ++ (prev ∷ []))
    pub below : Below s good root i.file prev id bs xs
    pub freed : f.freed ≡ ids ++ xs
    pub distinct : IsDistinct f.freed
    pub small : AllBelow id_bound (root ∷ f.freed)
    pub out : has root f.freed ≡ false

  abbrev pub Represents : PageIds File → FreeIds → Type 0
  Represents i f =
      (id prev : ℕ) × (ids : List ℕ) × (bs : List StorePage) × (xs : List ℕ) × Holds i f id prev ids
        bs xs

  abbrev pub TakesId : PageIds File → ℕ → ℕ × FreeIds → Type 0
  TakesId i fuel answer =
      (i' : PageIds File) × (allocate_page_id s (suc fuel) i ≡ some (answer.0, i'))
      × (i'.file ≡ i.file)
      × Represents i' answer.1

  -- Nothing is free: a new id.
  take_counter :
      (i : PageIds File) (f : FreeIds) (fuel id prev : ℕ) (xs : List ℕ)
      → Holds i f id prev [] [] xs
      → TakesId i fuel (take_id f)
  unfolding take_id take_freed
  take_counter i f fuel id prev xs h =
      let none_left : f.freed ≡ [] = h.freed ∙ h.below.2 in
      let i' : PageIds File = record i { page_counter = (i.page_counter + 1) % 2 ^ 32 } in
      subst (λ l. TakesId i fuel (take_freed f l)) (sym none_left)
        (
          i',
          bottom s (suc fuel) i (record_num_lem i.page id (prev ∷ []) h.stack)
              ∙ bottom_counts s (suc fuel) i (read_last i.page id prev [] h.stack)
                  (h.stack.words.0 ∙ h.below.0)
              ∙ ap (λ n. some (n, i')) h.counter,
          refl,
          (
            id,
            prev,
            [],
            [],
            [],
            record {
              counter = ap (λ n. (n + 1) % 2 ^ 32) h.counter;
              dirty = h.dirty;
              stack = h.stack;
              below = (h.below.0, h.below.1, refl);
              freed = refl;
              distinct = tt;
              small = (h.small.0, tt);
              out = refl;
            },
          ),
        )

  -- The last entry of the page.
  take_entry :
      (i : PageIds File) (f : FreeIds) (fuel id prev w : ℕ) (ids : List ℕ) (bs : List StorePage)
      (xs : List ℕ)
      → Holds i f id prev (w ∷ ids) bs xs
      → TakesId i fuel (take_id f)
  unfolding take_id take_freed
  take_entry i f fuel id prev w ids bs xs h =
      let ws : List ℕ = ids ++ (prev ∷ []) in
      let n : i.page.record_num ≡ suc (length ws) = record_num_lem i.page id (w ∷ ws) h.stack in
      let some_left : length ws ≡ length ids + 1 = length-append ids (prev ∷ []) in
      let (p', deletes, st') = pop i.page id w ws h.stack in
      subst (λ l. TakesId i fuel (take_freed f l)) (sym h.freed)
        (
          record i { page = p' },
          top s (suc fuel) i (omega (arith, n, some_left))
              ∙ top_pops s (suc fuel) i p' (length ws) (length ws * 4) _
                  (omega (arith, n, h.stack.fits)) (read_last i.page id w ws h.stack) deletes
              ∙ ap (λ v. some (v, record i { page = p' })) h.stack.words.0,
          refl,
          (
            id,
            prev,
            ids,
            bs,
            xs,
            record {
              counter = h.counter;
              dirty = h.dirty;
              stack = st';
              below = h.below;
              freed = refl;
              distinct = (subst IsDistinct h.freed h.distinct).1;
              small = (h.small.0, (subst (AllBelow id_bound) h.freed h.small.1).1);
              out = has-tail root (w ∷ []) (ids ++ xs) (ap (has root) (sym h.freed) ∙ h.out);
            },
          ),
        )

  brought :
      (i : PageIds File) (fuel prev : ℕ) (b : StorePage)
      → IsOlder s good i.file b
      → b.id ≡ prev
      → page_bring_in s (suc fuel) i.file prev i.page ≡ some (pageloadaccp, b.page)
  unfolding page_bring_in
  brought i fuel prev b o e =
      rw
        (ap (λ k. dk_read_page_by_pid s (suc fuel) (λ _. i.file) k i.page) (sym e)
          ∙ o.stored fuel i.page)
        refl

  -- The page itself; the one below it comes back from the file.
  take_page :
      (i : PageIds File) (f : FreeIds) (fuel id prev : ℕ) (b : StorePage) (bs : List StorePage)
      (xs : List ℕ)
      → Holds i f id prev [] (b ∷ bs) xs
      → TakesId i fuel (take_id f)
  unfolding take_id take_freed
  take_page i f fuel id prev b bs xs h =
      let (o, e, (ys, older, split)) = h.below in
      let all : f.freed ≡ id ∷ (b.ids ++ ys) = h.freed ∙ split in
      let not_null : prev ≢ page_id_null = omega (arith, o.small, e) in
      subst (λ l. TakesId i fuel (take_freed f l)) (sym all)
        (
          record i { page = b.page },
          bottom s (suc fuel) i (record_num_lem i.page id (prev ∷ []) h.stack)
              ∙ bottom_brings s (suc fuel) i b.page prev _ (read_last i.page id prev [] h.stack)
                  h.stack.words.0 not_null (brought i fuel prev b o e)
              ∙ ap (λ v. some (v, record i { page = b.page })) h.stack.page_id,
          refl,
          (
            prev,
            b.prev,
            b.ids,
            bs,
            ys,
            record {
              counter = h.counter;
              dirty = h.dirty;
              stack = subst (λ k. IsStack b.page k (b.ids ++ (b.prev ∷ []))) e o.stack;
              below = older;
              freed = refl;
              distinct = (subst IsDistinct all h.distinct).1;
              small = (h.small.0, (subst (AllBelow id_bound) all h.small.1).1);
              out = has-tail root (id ∷ []) (b.ids ++ ys) (ap (has root) (sym all) ∙ h.out);
            },
          ),
        )

  -- An id is taken from the freed ones, the last one first, and is new where none is free.
  pub allocate_page_id_lem :
      (i : PageIds File) (f : FreeIds) (fuel : ℕ) → Represents i f → TakesId i fuel (take_id f)
  allocate_page_id_lem i f fuel (id, prev, [], [], xs, h) = take_counter i f fuel id prev xs h
  allocate_page_id_lem i f fuel (id, prev, [], b ∷ bs, xs, h) = take_page i f fuel id prev b bs xs h
  allocate_page_id_lem i f fuel (id, prev, w ∷ ids, bs, xs, h) =
      take_entry i f fuel id prev w ids bs xs h
