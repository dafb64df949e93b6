-- ===== src/Pool/Ids/Chain.antt =====
-- src/pool/pool.c: the store pages that lie in the file, below the one of `ft_block`.
use dsm_db.Shared.{
  ℕ, suc, ◌^◌, ◌<◌, ◌≡◌, ◌≢◌, ◌⊎◌, inl, inr, refl, sym, ap, subst, ◌∙◌, true, false, IsDistinct,
  some, List, [], ◌∷◌, ◌++◌, has, length, arith, ==_refl, has-tail,
}
use dsm_db.Disk.{
  Storage, IsStorage, page_size, page_offset, dkreadaccept, dk_read_page_by_pid,
  dk_write_page_by_pid,
}
use dsm_db.Disk.Pages.{read-write, read-write_other}
use dsm_db.Page.{Page, page_id_null}
use dsm_db.Pool.Ids.Words.{IsStack}

-- What is relied on: pages that are written stay, a page's id is that of its header, and a write
-- moves the whole page.
pub record IsPageStorage {File : Type 0} (s : Storage File Page) : Type 0 where
  pub laws : IsStorage s
  pub id_lem : (p : Page) → s.page_id_of p ≡ p.page_id
  pub whole : (f : File) (o : ℕ) (p : Page) → (s.write_page f o p).0 ≡ page_size

-- A store page in the file: its freed ids, the last one first, and the page below it.
pub record StorePage : Type 0 where
  pub id : ℕ
  pub page : Page
  pub ids : List ℕ
  pub prev : ℕ

-- The ids of pages whose offset fits in 32 bits.
abbrev pub id_bound : ℕ
id_bound = 2 ^ 20

module _ {File : Type 0} (s : Storage File Page) (good : IsPageStorage s) where
  -- What a read of the page gives.
  abbrev pub OnDisk : File → ℕ → Page → Type 0
  OnDisk file id p =
      (fuel : ℕ) (y : Page)
      → dk_read_page_by_pid s (suc fuel) (λ _. file) id y ≡ some (dkreadaccept, p)

  pub written-OnDisk :
      (file : File) (p : Page) (id : ℕ)
      → p.page_id ≡ id
      → OnDisk (dk_write_page_by_pid s file id p).1 id p
  unfolding dk_write_page_by_pid
  written-OnDisk file p id e fuel y =
      read-write s good.laws file (dk_write_page_by_pid s file id p).1 id fuel p y
        (good.id_lem p ∙ e) (rw (good.whole file (page_offset id) p) refl)

  pub other-OnDisk :
      (file : File) (p q : Page) (id t : ℕ)
      → id < id_bound
      → t < id_bound
      → t ≢ id
      → OnDisk file id p
      → OnDisk (dk_write_page_by_pid s file t q).1 id p
  other-OnDisk file p q id t hi ht ne on fuel y =
      read-write_other s good.laws file (dk_write_page_by_pid s file t q).1 t id fuel
        (dk_write_page_by_pid s file t q).0 q y p ht hi ne refl (on 0 y)

  pub record IsOlder (file : File) (b : StorePage) : Type 0 where
    pub stored : OnDisk file b.id b.page
    pub stack : IsStack b.page b.id (b.ids ++ (b.prev ∷ []))
    pub full : length b.ids ≡ 676
    pub small : b.id < id_bound

  -- What is freed below the entries of the page `id`, whose page below is `prev`: nothing for the
  -- first store page, `root`, and else the page itself, the entries of `prev`, and so on.
  abbrev pub Below : ℕ → File → ℕ → ℕ → List StorePage → List ℕ → Type 0
  Below root file prev id [] xs = (prev ≡ page_id_null) × (id ≡ root) × (xs ≡ [])
  Below root file prev id (b ∷ bs) xs =
      IsOlder file b
      × (b.id ≡ prev)
      × ((ys : List ℕ) × Below root file b.prev prev bs ys × (xs ≡ id ∷ (b.ids ++ ys)))

  -- A store page is the first one, or free itself.
  pub id_known :
      (root : ℕ) (file : File) (prev id : ℕ) (bs : List StorePage) (xs : List ℕ)
      → Below root file prev id bs xs
      → (id ≡ root) ⊎ (has id xs ≡ true)
  id_known root file prev id [] xs h = inl h.1
  id_known root file prev id (b ∷ bs) xs h = inr (rw (h.2.2, ==_refl id) refl)

  IsOlder-write :
      (file : File) (b : StorePage) (t : ℕ) (q : Page)
      → t < id_bound
      → t ≢ b.id
      → IsOlder file b
      → IsOlder (dk_write_page_by_pid s file t q).1 b
  IsOlder-write file b t q ht ne o = record {
    stored = other-OnDisk file b.page q b.id t o.small ht ne o.stored;
    stack = o.stack;
    full = o.full;
    small = o.small;
  }

  -- A write of a page that is neither the first store page nor free below leaves all as it was.
  Below-write :
      (root t : ℕ) (file : File) (q : Page) (prev id : ℕ) (bs : List StorePage) (xs : List ℕ)
      → t < id_bound
      → t ≢ root
      → has t xs ≡ false
      → Below root file prev id bs xs
      → Below root (dk_write_page_by_pid s file t q).1 prev id bs xs
  Below-write root t file q prev id [] xs ht ne out h = h
  Below-write root t file q prev id (b ∷ bs) xs ht ne out (o, e, (ys, h, split)) =
      let past : has t ys ≡ false = has-tail t (id ∷ b.ids) ys (ap (has t) (sym split) ∙ out) in
      let apart : t ≢ b.id = λ same. elim (id_known root file b.prev prev bs ys h) [
        | inl first ↦ ne (same ∙ e ∙ first)
        | inr listed ↦ cc (past, listed, same, e)
      ] in
      (
        IsOlder-write file b t q ht apart o,
        e,
        (ys, Below-write root t file q b.prev prev bs ys ht ne past h, split),
      )

  -- So does the write of the page that is on top.
  pub Below-write_top :
      (root : ℕ) (file : File) (q : Page) (prev id : ℕ) (bs : List StorePage) (xs : List ℕ)
      → id < id_bound
      → IsDistinct xs
      → has root xs ≡ false
      → Below root file prev id bs xs
      → Below root (dk_write_page_by_pid s file id q).1 prev id bs xs
  Below-write_top root file q prev id [] xs ht d out h = h
  Below-write_top root file q prev id (b ∷ bs) xs ht d out (o, e, (ys, h, split)) =
      let d' : IsDistinct (id ∷ (b.ids ++ ys)) = subst IsDistinct split d in
      let past : has id ys ≡ false = has-tail id b.ids ys d'.0 in
      let out' : has root (id ∷ (b.ids ++ ys)) ≡ false = ap (has root) (sym split) ∙ out in
      let ne : id ≢ root = λ same. ground arith in
      let apart : id ≢ b.id = λ same. elim (id_known root file b.prev prev bs ys h) [
        | inl first ↦ ne (same ∙ e ∙ first)
        | inr listed ↦ cc (past, listed, same, e)
      ] in
      (
        IsOlder-write file b id q ht apart o,
        e,
        (ys, Below-write root id file q b.prev prev bs ys ht ne past h, split),
      )
