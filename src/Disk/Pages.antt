-- ===== src/Disk/Pages.antt =====
-- src/disk/disk.c: what a read gives after a write.
use dsm_db.Shared.{
  ℕ, zero, suc, ◌+◌, ◌*◌, ◌%◌, ◌^◌, ◌<◌, ◌≡◌, ◌≢◌, inl, inr, refl, Bool-cases, ◌∙◌, sym, ap, false,
  ◌==◌, some, none, if◌then◌else◌, arith, ==_refl,
}
use dsm_db.Disk.{
  page_size, dkreadaccept, dkreadincomp, dkwriteaccept, dkwriteincomp, Storage, IsStorage,
  page_offset, dk_read_page_by_pid, dk_write_page_by_pid,
}

page_offset_lem : (i : ℕ) → page_offset i ≡ page_size * (i % 2 ^ 20)
unfolding page_offset
page_offset_lem i = omega arith

module _ {File Buffer : Type 0} (s : Storage File Buffer) (laws : IsStorage s) where
  written-whole :
      (f f' : File) (i : ℕ) (x : Buffer)
      → dk_write_page_by_pid s f i x ≡ (dkwriteaccept, f')
      → s.write_page f (page_offset i) x ≡ (page_size, f')
  unfolding dk_write_page_by_pid
  written-whole f f' i x h =
      ap (λ n. (n, (s.write_page f (page_offset i) x).1)) count
      ∙ ap (λ g. (page_size, g)) (ap (λ r. r.1) h)
    where
      answer :
          (if (s.write_page f (page_offset i) x).0 == page_size
            then dkwriteaccept
            else dkwriteincomp)
          ≡ dkwriteaccept
      answer = ap (λ r. r.0) h

      count : (s.write_page f (page_offset i) x).0 ≡ page_size
      count = ground (arith, answer)

  written :
      (f f' : File) (i n : ℕ) (x : Buffer)
      → dk_write_page_by_pid s f i x ≡ (n, f')
      → (m : ℕ) × (s.write_page f (page_offset i) x ≡ (m, f'))
  unfolding dk_write_page_by_pid
  written f f' i n x h = (
    (s.write_page f (page_offset i) x).0,
    ap (λ r. ((s.write_page f (page_offset i) x).0, r.1)) h,
  )

  -- In a storage that keeps its pages, a page with its id in it that was written whole is what the
  -- next read of the page gives, at the first round.
  pub read-write :
      (f f' : File) (i fuel : ℕ) (x y : Buffer)
      → s.page_id_of x ≡ i
      → dk_write_page_by_pid s f i x ≡ (dkwriteaccept, f')
      → dk_read_page_by_pid s (suc fuel) (λ _. f') i y ≡ some (dkreadaccept, x)
  unfolding dk_read_page_by_pid
  read-write f f' i fuel x y e h =
      rw (laws.read_back f f' (page_offset i) x y (written-whole f f' i x h), e, ==_refl i) refl

  -- What a read that ends at the first round has read.
  first_read :
      (f : File) (j : ℕ) (y z : Buffer)
      → dk_read_page_by_pid s 1 (λ _. f) j y ≡ some (dkreadaccept, z)
      → (s.read_page f (page_offset j) y ≡ (page_size, z)) × (s.page_id_of z ≡ j)
  unfolding dk_read_page_by_pid
  first_read f j y z h =
      let r : ℕ × Buffer = s.read_page f (page_offset j) y in
      elim (Bool-cases (s.page_id_of r.1 == j)) [
        | inr other ↦ let h' = rw other at h in absurd (cc (h'))
        | inl here ↦
            let h' = rw here at h in
            let same : r.1 ≡ z = cc (h') in
            let answer : (if r.0 == page_size then dkreadaccept else dkreadincomp) ≡ dkreadaccept =
              cc (h') in
            let count : r.0 ≡ page_size = ground (arith, answer) in
            let id : s.page_id_of r.1 ≡ j = ground (arith, here) in
            (
              ap (λ n. (n, r.1)) count ∙ ap (λ b. (page_size, b)) same,
              ap s.page_id_of (sym same) ∙ id,
            )
      ]

  -- In a storage that keeps its pages, a page that a read gives whole at the first round is what a
  -- read gives after the write of another page, if both ids are below 2^20.
  pub read-write_other :
      (f f' : File) (i j fuel n : ℕ) (x y z : Buffer)
      → i < 2 ^ 20
      → j < 2 ^ 20
      → i ≢ j
      → dk_write_page_by_pid s f i x ≡ (n, f')
      → dk_read_page_by_pid s 1 (λ _. f) j y ≡ some (dkreadaccept, z)
      → dk_read_page_by_pid s (suc fuel) (λ _. f') j y ≡ some (dkreadaccept, z)
  unfolding dk_read_page_by_pid
  read-write_other f f' i j fuel n x y z hi hj ne h before =
      let (m, w) = written f f' i n x h in
      let (reads, id) = first_read f j y z before in
      let again : s.read_page f' (page_offset j) y ≡ (page_size, z) =
        ap (λ o. s.read_page f' o y) (place j hj)
        ∙ laws.read_other f f' i j m x y z ne (ap (λ o. s.write_page f o x) (sym (place i hi)) ∙ w)
            (ap (λ o. s.read_page f o y) (sym (place j hj)) ∙ reads) in
      rw (again, id, ==_refl j) refl
    where
      place : (k : ℕ) → k < 2 ^ 20 → page_offset k ≡ page_size * k
      place k hk = page_offset_lem k ∙ omega arith

  -- In a storage that keeps its pages, a page with its id in it is written whole, and nothing after
  -- it. The read of the page whose id is 2^20 less then goes on for ever.
  pub read-write_alias :
      (f f' : File) (i fuel : ℕ) (x y : Buffer)
      → s.page_id_of x ≡ i + 2 ^ 20
      → dk_write_page_by_pid s f (i + 2 ^ 20) x ≡ (dkwriteaccept, f')
      → dk_read_page_by_pid s fuel (λ _. f') i y ≡ none
  unfolding dk_read_page_by_pid
  read-write_alias f f' i zero x y e h = refl
  read-write_alias f f' i (suc fuel) x y e h =
      rw (back, wrong) (read-write_alias f f' i fuel x x e h)
    where
      same_place : page_offset (i + 2 ^ 20) ≡ page_offset i
      same_place = page_offset_lem (i + 2 ^ 20) ∙ (omega arith) ∙ sym (page_offset_lem i)

      back : s.read_page f' (page_offset i) y ≡ (page_size, x)
      back =
          ap (λ o. s.read_page f' o y) (sym same_place)
          ∙ laws.read_back f f' (page_offset (i + 2 ^ 20)) x y (written-whole f f' (i + 2 ^ 20) x h)

      wrong : (s.page_id_of x == i) ≡ false
      wrong = ground arith
