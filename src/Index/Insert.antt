-- ===== src/Index/Insert.antt =====
-- src/interface/interface.c: `db_1_iinsert` where the leaf page has room, and where the key is there.
use dsm_db.Shared.{
  ℕ, zero, suc, ◌+◌, ◌-◌, ◌%◌, ◌^◌, ◌≤◌, ◌<◌, ◌≡◌, ◌⊎◌, inl, inr, refl, ◌∙◌, sym, ap, subst, Bool,
  true, false, ltb, ◌==◌, not, ◌&&◌, Option, some, none, List, [], if◌then◌else◌, arith, Bool-cases,
}
use dsm_db.Page.{page_id_null}
use dsm_db.Blink.Leaf.{
  Entry, Leaf, is_leaf_safe, blink_entry_insert_to_leaf, bll_accept, bll_key_dup,
}
use dsm_db.Blink.Leaf.Scan.{IsSortedLeaf, lookup}
use dsm_db.Blink.Leaf.Insert.{insert_absent, insert-stays, blink_entry_insert_to_leaf-Inserts}
use dsm_db.Blink.Leaf.Space.{Fits}
use dsm_db.Index.{leaf, Index, set_page, blinkstacksize, blink_is_node_safe}
use dsm_db.Index.Insertion.{move_right, insert_safe, insert_level, db_1_iinsert}
use dsm_db.Index.Represents.{Entries, Span, IsLeafOf, Represents}
use dsm_db.Index.Descent.{put_leaf, Holds, descend_lem}

-- A leaf page that has space for one more record is not split; the test lets other pages pass too.
safe_of_space : (l : Leaf) → Fits l (l.records + 1) → is_leaf_safe l ≡ true
unfolding is_leaf_safe
safe_of_space l f = ground (arith, f.inside)

abbrev pub set_entry : Entries → Entry → Entries
set_entry m e k = if k == e.key then some e else m k

-- The page after an insertion of a new key stands for one entry more.
inserted_leaf :
    (l : Leaf) (q : ℕ) (s : Span) (m : Entries) (e : Entry)
    → IsLeafOf l q s m
    → Holds s e.key
    → Fits l (l.records + 1)
    → m e.key ≡ none
    → (l' : Leaf) × (blink_entry_insert_to_leaf l e ≡ some (bll_accept, l'))
      × IsLeafOf l' q s (set_entry m e)
inserted_leaf l q s m e is here room new =
    let out : lookup l e.key ≡ some none = is.entries e.key here.0 here.1 ∙ ap some new in
    let (l', ins, sorted, count, bound, law) = insert_absent l e e.key is.sorted room out in
    (
      l',
      ins,
      record {
        id = (insert-stays l e bll_accept l' ins).0 ∙ is.id;
        sorted = sorted;
        bound = subst (λ b. (b ≡ page_id_null) ⊎ (s.high ≤ b)) (sym bound) is.bound;
        entries = λ k low high.
            let (l'', ins', _, _, _, law') = insert_absent l e k is.sorted room out in
            let same : l'' ≡ l' = cc (ins, ins') in
            ap (λ x. lookup x k) (sym same)
            ∙ law'
            ∙ ap (λ r. if k == e.key then some (some e) else r) (is.entries k low high)
            ∙ if_some (k == e.key) e (m k);
      },
    )
  where
    if_some :
        (b : Bool) (e : Entry) (r : Option Entry)
        → (if b then some (some e) else some r) ≡ some (if b then some e else r)
    if_some true e r = refl
    if_some false e r = refl

-- The page does not send the key on to the right.
stays :
    (ix : Index) (f q key : ℕ) (l : Leaf)
    → ix.pages q ≡ some (leaf l)
    → (l.upbound ≡ page_id_null) ⊎ (key ≤ l.upbound)
    → move_right (suc f) ix q key ≡ some (some q)
unfolding move_right
stays ix f q key l there h =
    let test : (not (l.upbound == page_id_null) && ltb l.upbound key) ≡ false = ground arith in
    rw there (rw test refl)

-- The insertion in a leaf with room, at the loop over the levels.
level_lem :
    (ix : Index) (f q : ℕ) (l l' : Leaf) (e : Entry) (stack : List ℕ)
    → ix.pages q ≡ some (leaf l)
    → is_leaf_safe l ≡ true
    → blink_entry_insert_to_leaf l e ≡ some (bll_accept, l')
    → insert_level (suc f) ix q stack e e.key (page_id_null, page_id_null) false
      ≡ some (true, set_page ix q (leaf l'))
unfolding insert_level insert_safe blink_is_node_safe
level_lem ix f q l l' e stack there safe ins = rw there (rw safe (rw ins refl))

-- The same for a key that is there.
level_duplicate :
    (ix : Index) (f q : ℕ) (l : Leaf) (e : Entry) (stack : List ℕ)
    → ix.pages q ≡ some (leaf l)
    → is_leaf_safe l ≡ true
    → blink_entry_insert_to_leaf l e ≡ some (bll_key_dup, l)
    → insert_level (suc f) ix q stack e e.key (page_id_null, page_id_null) false
      ≡ some (false, set_page ix q (leaf l))
unfolding insert_level insert_safe blink_is_node_safe
level_duplicate ix f q l e stack there safe ins = rw there (rw safe (rw ins refl))

insert_there :
    (l : Leaf) (e x : Entry)
    → IsSortedLeaf l
    → lookup l e.key ≡ some (some x)
    → blink_entry_insert_to_leaf l e ≡ some (bll_key_dup, l)
insert_there l e x s there = elim (blink_entry_insert_to_leaf-Inserts l e e.key s none_absent) [
  | inl dup ↦ dup.2
  | inr new ↦ absurd (cc (there, new.2))
]
  where
    none_absent : lookup l e.key ≡ some none → Fits l (l.records + 1)
    none_absent out = absurd (cc (there, out))

back : (n : ℕ) → n + 1 - 1 ≡ n
back n = omega arith

-- The pages below the root, of a height `h` that the stack has room for, stand for `m`, and `e` has
-- a new key between the bounds of the tree, with which it is inserted. In `data` of the leaf page that
-- the key leads to is space for one entry more, of at least 4 bytes. With fuel for `h + 1` pages the
-- insertion ends, writes inside of the page, and says true, the pages stand for `m` with `e`, the
-- count of the records grows by one, and the lock is given back.
pub db_1_iinsert-Represents :
    (span : ℕ → Span) (ix : Index) (f h : ℕ) (s : Span) (m : Entries) (e : Entry)
    → h < f
    → h ≤ blinkstacksize
    → s.low ≤ e.key
    → e.key ≤ s.high
    → Represents span ix.pages h ix.root s m
    → ((q : ℕ) (l : Leaf)
        → ix.pages q ≡ some (leaf l)
        → Holds (span q) e.key
        → Fits l (l.records + 1))
    → m e.key ≡ none
    → (ix' : Index) × (db_1_iinsert f ix e e.key ≡ some (true, ix'))
      × Represents span ix'.pages h ix'.root s (set_entry m e)
      × (ix'.records ≡ (ix.records + 1) % 2 ^ 32)
      × (ix'.count_is ≡ ix.count_is)
unfolding db_1_iinsert
db_1_iinsert-Represents span ix zero h s m e hf deep low high r room new = absurd (omega arith)
db_1_iinsert-Represents span ix (suc f) h s m e hf deep low high r room new =
    let inside = record ix { count_is = ix.count_is + 1 } in
    let (page, opened, (q, stack, l, down, at_q, zero_q, here, is_q, rebuild)) =
      descend_lem span inside (suc f) h ix.root e.key s m [] hf (omega arith) low high r in
    let space = room q l at_q here in
    let (l', ins, is') = inserted_leaf l q (span q) m e is_q here space new in
    (
      record ix { pages = put_leaf ix.pages q l'; records = (ix.records + 1) % 2 ^ 32 },
      rw opened (
          rw down (
            rw (stays inside f q e.key l at_q (ground (arith, is_q.bound))) (
              rw (level_lem inside f q l l' e stack at_q (safe_of_space l space) ins) (
                ap
                  (λ c. some (
                    true,
                    record ix {
                      pages = put_leaf ix.pages q l';
                      records = (ix.records + 1) % 2 ^ 32;
                      count_is = c;
                    },
                  ))
                  (back ix.count_is))))),
      rebuild l' (set_entry m e) is' (λ k ne. ground (arith, ne)),
      refl,
      refl,
    )

-- The same tree, and a key that is there, in a leaf page that the code takes for one with room: the
-- insertion, with fuel for `h + 1` pages, says false, and every page, the root and the count of the
-- records stay, so the pages stand for `m` again; but the lock is not given back.
pub db_1_iinsert-duplicate :
    (span : ℕ → Span) (ix : Index) (f h : ℕ) (s : Span) (m : Entries) (e x : Entry)
    → h < f
    → h ≤ blinkstacksize
    → s.low ≤ e.key
    → e.key ≤ s.high
    → Represents span ix.pages h ix.root s m
    → ((q : ℕ) (l : Leaf)
        → ix.pages q ≡ some (leaf l)
        → Holds (span q) e.key
        → is_leaf_safe l ≡ true)
    → m e.key ≡ some x
    → (ix' : Index) × (db_1_iinsert f ix e e.key ≡ some (false, ix'))
      × ((k : ℕ) → ix'.pages k ≡ ix.pages k)
      × (ix'.root ≡ ix.root)
      × Represents span ix'.pages h ix'.root s m
      × (ix'.records ≡ ix.records)
      × (ix'.count_is ≡ ix.count_is + 1)
unfolding db_1_iinsert
db_1_iinsert-duplicate span ix zero h s m e x hf deep low high r room old = absurd (omega arith)
db_1_iinsert-duplicate span ix (suc f) h s m e x hf deep low high r room old =
    let inside = record ix { count_is = ix.count_is + 1 } in
    let (page, opened, (q, stack, l, down, at_q, zero_q, here, is_q, rebuild)) =
      descend_lem span inside (suc f) h ix.root e.key s m [] hf (omega arith) low high r in
    let safe = room q l at_q here in
    let ins = insert_there l e x is_q.sorted (is_q.entries e.key here.0 here.1 ∙ ap some old) in
    (
      record ix { pages = put_leaf ix.pages q l; count_is = ix.count_is + 1 },
      rw opened (
          rw down (
            rw (stays inside f q e.key l at_q (ground (arith, is_q.bound)))
              (rw (level_duplicate inside f q l e stack at_q safe ins) refl))),
      λ k. (elim (Bool-cases (k == q)) [
        | inl same ↦ let e' : k ≡ q = ground arith in rw same (sym at_q ∙ ap ix.pages (sym e'))
        | inr other ↦ rw other refl
      ]),
      refl,
      rebuild l m is_q (λ k ne. refl),
      refl,
      refl,
    )
