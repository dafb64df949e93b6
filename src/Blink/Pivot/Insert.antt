-- ===== src/Blink/Pivot/Insert.antt =====
-- src/index/b_page.c: `blink_entry_insert_to_pivot` at the ends of a pivot page.
use dsm_db.Shared.{
  ℕ, zero, suc, ◌+◌, ◌-◌, ◌≤◌, ◌<◌, ◌≡◌, ◌≢◌, ◌∙◌, some, ltb, leb, ◌==◌, ◌&&◌, ◌||◌, if◌then◌else◌,
  arith,
}
use dsm_db.Shared.Xor.{bit_xor_exchange}
use dsm_db.Blink.Search.{IsSorted}
use dsm_db.Blink.Pivot.{
  Pairs, Pivot, Kind, sep, move, key_at, cpid_at, set_cpid, set_pair, shift_up, exchange, put_pair,
  append_pair, blink_pivot_scan,
}
use dsm_db.Blink.Pivot.Route.{Routes}

pub shift_up_lem :
    (a : Pairs) (index n j : ℕ)
    → shift_up a index n j ≡ (if ltb index j && leb j (index + n) then a (j - 1) else a j)
unfolding shift_up
shift_up_lem a index zero j = ground arith
shift_up_lem a index (suc n) j =
    shift_up_lem (set_pair a (index + n + 1) (a (index + n))) index n j ∙ step
  where
    moved : Pairs
    moved = set_pair a (index + n + 1) (a (index + n))

    step :
        (if ltb index j && leb j (index + n) then moved (j - 1) else moved j)
        ≡ (if ltb index j && leb j (index + suc n) then a (j - 1) else a j)
    step = ground arith

-- The first two page ids change places, and nothing else.
pub exchange_lem :
    (a : Pairs) (j : ℕ)
    → ((exchange a j).key ≡ (a j).key)
      × ((exchange a j).cpid
          ≡ (if j == 0 then (a 1).cpid else if j == 1 then (a 0).cpid else (a j).cpid))
unfolding exchange
exchange_lem a j = ground (arith, bit_xor_exchange (a 0).cpid (a 1).cpid)

-- The pairs after an insertion at `index`, for a key that is not above all others.
pub key-put_pair :
    (p : Pivot) (index key pid j : ℕ) (kind : Kind)
    → index < p.records
    → j ≤ p.records
    → key_at (put_pair p index key pid kind) j
      ≡ (if j == index then key else if ltb j index then key_at p j else key_at p (j - 1))
unfolding put_pair
key-put_pair p index key pid j sep hi hj =
    (exchange_lem _ j).0
    ∙ ground (
      arith,
      shift_up_lem (set_cpid p.pairs (p.records + 1) (cpid_at p p.records)) index
          (p.records - index) j,
    )
key-put_pair p index key pid j move hi hj = ground (
  arith,
  shift_up_lem (set_cpid p.pairs (p.records + 1) (cpid_at p p.records)) index (p.records - index) j,
)

pub cpid-put_move :
    (p : Pivot) (index key pid j : ℕ)
    → index < p.records
    → j ≤ p.records + 1
    → cpid_at (put_pair p index key pid move) j
      ≡ (if j == index then pid else if ltb j index then cpid_at p j else cpid_at p (j - 1))
unfolding put_pair
cpid-put_move p index key pid j hi hj = ground (
  arith,
  shift_up_lem (set_cpid p.pairs (p.records + 1) (cpid_at p p.records)) index (p.records - index) j,
)

pub cpid-put_sep :
    (p : Pivot) (index key pid j : ℕ)
    → cpid_at (put_pair p index key pid sep) j ≡ (
        if j == 0
        then cpid_at (put_pair p index key pid move) 1
        else if j == 1
        then cpid_at (put_pair p index key pid move) 0
        else cpid_at (put_pair p index key pid move) j)
unfolding put_pair
cpid-put_sep p index key pid j = (exchange_lem _ j).1

-- The keys of a page, and the place of a key, after `key` has come in at `i`.
module _ (n i key : ℕ) (keys keys' : ℕ → ℕ) (s : IsSorted n keys) (r : Routes n keys key i)
    (new : (j : ℕ) → j < n → keys j ≢ key)
    (same : (a : ℕ)
      → a ≤ n
      → keys' a ≡ (if a == i then key else if ltb a i then keys a else keys (a - 1))) where
  pub inserted-IsSorted : IsSorted (n + 1) keys'
  inserted-IsSorted a b lt hb = ground (
    arith,
    same a,
    same b,
    s a b,
    s a (b - 1),
    s (a - 1) (b - 1),
    r.below a,
    r.above (b - 1),
    r.inside,
    new (b - 1),
  )

  pub inserted-Routes :
      (x j : ℕ)
      → Routes n keys x j
      → Routes (n + 1) keys' x (if ltb j i || (j == i && leb x key) then j else j + 1)
  inserted-Routes x j rx = record {
    inside = ground (arith, rx.inside);
    below = λ a ha. ground (
      arith,
      same a,
      r.below a,
      r.above a,
      rx.below a,
      rx.below (a - 1),
      rx.above i,
      rx.inside,
      r.inside,
      r.above (a - 1),
      r.above j,
    );
    above = λ a ha hn. ground (
      arith,
      same a,
      r.below j,
      r.above a,
      rx.above j,
      rx.above a,
      rx.above (a - 1),
      rx.inside,
      r.inside,
    );
  }

-- The children of a page, after `pid` has come in on the right of a key at `i`.
abbrev pub Follows : Pivot → Pivot → ℕ → ℕ → Type 0
Follows p p' i pid =
    (a : ℕ)
    → a ≤ p.records + 1
    → cpid_at p' a
      ≡ (if a == i + 1 then pid else if leb a i then cpid_at p a else cpid_at p (a - 1))

pub records-put_pair :
    (p : Pivot) (index key pid : ℕ) (kind : Kind)
    → p.records < 65535
    → (put_pair p index key pid kind).records ≡ p.records + 1
unfolding put_pair
records-put_pair p index key pid kind h = omega arith

pub Follows-put_pair :
    (p : Pivot) (key pid : ℕ) → 0 < p.records → Follows p (put_pair p 0 key pid sep) 0 pid
Follows-put_pair p key pid h a ha =
    cpid-put_sep p 0 key pid a
    ∙ ground (
      arith,
      cpid-put_move p 0 key pid 0,
      cpid-put_move p 0 key pid 1,
      cpid-put_move p 0 key pid a,
    )

pub Follows-append_pair :
    (p : Pivot) (key pid : ℕ) → Follows p (append_pair p key pid) p.records pid
unfolding append_pair
Follows-append_pair p key pid a ha = ground arith

pub key-append_pair :
    (p : Pivot) (key pid j : ℕ)
    → j ≤ p.records
    → key_at (append_pair p key pid) j
      ≡ (if j == p.records then key else if ltb j p.records then key_at p j else key_at p (j - 1))
unfolding append_pair
key-append_pair p key pid j h = ground arith

pub records-append_pair :
    (p : Pivot) (key pid : ℕ) → p.records < 65535 → (append_pair p key pid).records ≡ p.records + 1
unfolding append_pair
records-append_pair p key pid h = omega arith

-- The right place for a new child: every key goes where it went, but those above the new key, in
-- the child that the new key led to, go to the new child.
abbrev pub Separates : Pivot → Pivot → ℕ → ℕ → ℕ → Type 0
Separates p p' i key pid =
    (x j : ℕ)
    → Routes p.records (key_at p) x j
    → blink_pivot_scan p' x ≡ some (if j == i && ltb key x then pid else cpid_at p j)
