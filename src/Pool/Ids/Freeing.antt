-- ===== src/Pool/Ids/Freeing.antt =====
-- src/pool/pool.c: `free_pages_id` puts ids on the stack of freed ids, and starts a new store page
-- where the page of `ft_block` is full.
use dsm_db.Shared.{
  ℕ, ◌<◌, ◌≡◌, ◌≢◌, inl, inr, refl, sym, ap, subst, ◌∙◌, true, false, ◌==◌, some, List, [], ◌∷◌,
  ◌++◌, has, AllBelow, length, length-append, has-AllBelow, arith, IsDistinct, AllBelow-tail,
  IsDistinct-tail, has-tail,
}
use native.Mathlib.Decide.{dec_lt}
use dsm_db.Shared.Memory.{word_bytes}
use dsm_db.Disk.{Storage, dk_write_page_by_pid}
use dsm_db.Page.{
  Page, p_entry_pagefull, p_entry_insert, p_entry_set_nextpid, p_entry_set_pagetype, page_init,
  page_id_null,
}
use dsm_db.Pool.Transfer.{dirtycheck, page_swap_out}
use dsm_db.Pool.Ids.{PageIds, page_id_store_page, start_store_page, free_page_id}
use dsm_db.Pool.Ids.Words.{IsStack, room, push, push_full, set_nextpid-IsStack, new_store_page}
use dsm_db.Pool.Ids.Chain.{
  IsPageStorage, StorePage, OnDisk, id_bound, id_known, written-OnDisk, other-OnDisk,
  Below-write_top,
}
use dsm_db.Pool.Ids.Stack.{FreeIds, give_id, CanGive, Holds, Represents}

-- The steps of a call, by what the insertion answers.
module _ {File : Type 0} (s : Storage File Page) (x : ℕ) (i : PageIds File) where
  pub kept :
      (p : Page) (n : ℕ)
      → p_entry_insert i.page (some (word_bytes x)) 4 ≡ some (n, p)
      → n < 2032
      → free_page_id s x i ≡ some (record i { page = p })
  unfolding free_page_id
  kept p n inserts small =
      let e : (n == p_entry_pagefull) ≡ false = ground arith in rw (inserts, e) refl

  pub overflows :
      p_entry_insert i.page (some (word_bytes x)) 4 ≡ some (p_entry_pagefull, i.page)
      → free_page_id s x i ≡ start_store_page s x i
  unfolding free_page_id
  overflows inserts = rw inserts refl

  starts :
      (p : Page) (n id : ℕ)
      → dirtycheck i.flags ≡ true
      → s.page_id_of (p_entry_set_nextpid i.page x).1 ≡ id
      → p_entry_insert
          (p_entry_set_pagetype (page_init 4 x page_id_null) page_id_store_page)
          (some (word_bytes i.page.page_id))
          4
        ≡ some (n, p)
      → start_store_page s x i
        ≡ some (record i {
          page = p;
          file = (dk_write_page_by_pid s i.file id (p_entry_set_nextpid i.page x).1).1;
        })
  unfolding start_store_page page_swap_out
  starts p n id dirty same inserts = rw (inserts, dirty, same) refl

module _ {File : Type 0} (s : Storage File Page) (good : IsPageStorage s) (root : ℕ) where
  -- What is known of the page of `ft_block`: it is the first store page or free itself.
  id-lt :
      (i : PageIds File) (f : FreeIds) (id prev : ℕ) (ids : List ℕ) (bs : List StorePage)
      (xs : List ℕ)
      → Holds s good root i f id prev ids bs xs
      → id < id_bound
  id-lt i f id prev ids bs xs h = elim (id_known s good root i.file prev id bs xs h.below) [
    | inl first ↦ subst (λ k. k < id_bound) (sym first) h.small.0
    | inr listed ↦
        has-AllBelow id_bound id xs
          (AllBelow-tail id_bound ids xs (subst (AllBelow id_bound) h.freed h.small.1)) listed
  ]

  not_root :
      {f : FreeIds} {x : ℕ}
      → CanGive root f x
      → has root f.freed ≡ false
      → has root (x ∷ f.freed) ≡ false
  not_root {f} {x} can out =
      let e : (root == x) ≡ false = ground (arith, can.other) in rw (e, out) refl

  -- The id is on top, and only the page that the store page has in the file may be another one.
  abbrev pub GivesId : PageIds File → ℕ → FreeIds → Type 0
  GivesId i x f =
      (i' : PageIds File) × (free_page_id s x i ≡ some i')
      × Represents s good root i' (give_id x f)
      × ((k : ℕ) (q : Page)
          → i.page.page_id ≢ k
          → k < id_bound
          → OnDisk s good i.file k q
          → OnDisk s good i'.file k q)

  give_entry :
      (i : PageIds File) (f : FreeIds) (x id prev : ℕ) (ids : List ℕ) (bs : List StorePage)
      (xs : List ℕ)
      → Holds s good root i f id prev ids bs xs
      → CanGive root f x
      → length (ids ++ (prev ∷ [])) < room
      → GivesId i x f
  unfolding give_id
  give_entry i f x id prev ids bs xs h can left =
      let (p', inserts, st') =
        push i.page id (ids ++ (prev ∷ [])) h.stack x (omega (arith, can.small)) left in
      (
        record i { page = p' },
        kept s x i p' _ inserts (omega (arith, left)),
        (
          id,
          prev,
          x ∷ ids,
          bs,
          xs,
          record {
            counter = h.counter;
            dirty = h.dirty;
            stack = st';
            below = h.below;
            freed = ap (λ l. x ∷ l) h.freed;
            distinct = (can.fresh, h.distinct);
            small = (h.small.0, (can.small, h.small.1));
            out = not_root can h.out;
          },
        ),
        λ k q ne lt on. on,
      )

  give_page :
      (i : PageIds File) (f : FreeIds) (x id prev : ℕ) (ids : List ℕ) (bs : List StorePage)
      (xs : List ℕ)
      → Holds s good root i f id prev ids bs xs
      → CanGive root f x
      → length (ids ++ (prev ∷ [])) ≡ room
      → GivesId i x f
  unfolding give_id
  give_page i f x id prev ids bs xs h can full =
      let old : Page = (p_entry_set_nextpid i.page x).1 in
      let old-IsStack : IsStack old id (ids ++ (prev ∷ [])) =
        set_nextpid-IsStack i.page id (ids ++ (prev ∷ [])) x h.stack in
      let (p', inserts, st') =
        push _ x [] (new_store_page x page_id_store_page page_id_null) i.page.page_id
          (omega (arith, id_small, h.stack.page_id)) (omega arith) in
      let file' : File = (dk_write_page_by_pid s i.file id old).1 in
      let b : StorePage = record { id = id; page = old; ids = ids; prev = prev } in
      (
        record i { page = p'; file = file' },
        overflows s x i (push_full i.page id (ids ++ (prev ∷ [])) h.stack x full)
            ∙ starts s x i p' _ id h.dirty (good.id_lem old ∙ old-IsStack.page_id) inserts,
        (
          x,
          id,
          [],
          b ∷ bs,
          x ∷ (ids ++ xs),
          record {
            counter = h.counter;
            dirty = h.dirty;
            stack = subst (λ k. IsStack p' x (k ∷ [])) h.stack.page_id st';
            below = (
              record {
                stored = written-OnDisk s good i.file old id old-IsStack.page_id;
                stack = old-IsStack;
                full = omega (arith, full, length-append ids (prev ∷ []));
                small = id_small;
              },
              refl,
              (
                xs,
                Below-write_top s good root i.file old prev id bs xs id_small
                    (IsDistinct-tail ids xs (subst IsDistinct h.freed h.distinct))
                    (has-tail root ids xs (ap (has root) (sym h.freed) ∙ h.out)) h.below,
                refl,
              ),
            );
            freed = ap (λ l. x ∷ l) h.freed;
            distinct = (can.fresh, h.distinct);
            small = (h.small.0, (can.small, h.small.1));
            out = not_root can h.out;
          },
        ),
        λ k q ne lt on.
            other-OnDisk s good i.file q old k id lt id_small (λ same. ne (h.stack.page_id ∙ same))
              on,
      )
    where
      id_small : id < id_bound
      id_small = id-lt i f id prev ids bs xs h

  -- A freed id goes on top, whether the page has room or a new store page is started.
  pub free_page_id_lem :
      (i : PageIds File) (f : FreeIds) (x : ℕ)
      → Represents s good root i f
      → CanGive root f x
      → GivesId i x f
  free_page_id_lem i f x (id, prev, ids, bs, xs, h) can =
      elim (dec_lt (length (ids ++ (prev ∷ []))) room) [
        | yes left ↦ give_entry i f x id prev ids bs xs h can left
        | no full ↦ give_page i f x id prev ids bs xs h can (omega (arith, full, h.stack.fits))
      ]
