-- ===== src/Protocol/Packed.antt =====
-- src/cmd/cmd.c: the attributes of a new table, as they are packed, in `__create_format`.
use dsm_db.Shared.{
  ℕ, zero, suc, ◌+◌, ◌*◌, ◌/◌, ◌%◌, ◌≤◌, ◌<◌, ◌≡◌, inl, inr, refl, ap, ◌∙◌, true, false, ltb, some,
  List, [], ◌∷◌, ◌++◌, length, length-append, arith,
}
use dsm_db.Shared.Memory.{Bytes, load32}
use dsm_db.Protocol.{Spells, bytes16, store8}
use dsm_db.Protocol.Spells.{Spells-left, Spells-right, Spells-append, Spells-store8, load32-pair}
use dsm_db.Protocol.Types.{AttrType, number_of, Attr, packed}
use dsm_db.Protocol.Server.{type_to_size, create_items, create_format}

-- Where the names are that are packed from `p` on, with the sizes of their types.
abbrev pub attrs_at : ℕ → List Attr → List (ℕ × ℕ)
attrs_at p [] = []
attrs_at p ((n, t) ∷ others) =
    (p + 4, type_to_size (number_of t)) ∷ attrs_at (p + 4 + length n) others

-- A NUL behind each name.
abbrev pub closed : Bytes → ℕ → List Attr → Bytes
closed m p [] = m
closed m p ((n, t) ∷ others) = closed (store8 m (p + 4 + length n) 0) (p + 4 + length n) others

-- The names, each with a NUL behind it.
abbrev pub Named : Bytes → ℕ → List Attr → Type 0
Named m p [] = Unit
Named m p ((n, t) ∷ others) = Spells m (p + 4) (n ++ (0 ∷ [])) × Named m (p + 4 + length n) others

header_there :
    (m : Bytes) (p : ℕ) (n : List ℕ) (t : AttrType) (others : List Attr)
    → Spells m p (packed ((n, t) ∷ others))
    → length n < 65536
    → load32 m p ≡ length n + 65536 * number_of t
header_there m p n t others s small =
    load32-pair m p (length n) (number_of t) small (small_number t)
      (Spells-left m p (bytes16 (length n) ++ bytes16 (number_of t)) (n ++ packed others) s)
  where
    small_number : (t : AttrType) → number_of t < 65536
    small_number AttrType.int16 = omega arith
    small_number AttrType.int32 = omega arith
    small_number AttrType.int64 = omega arith
    small_number AttrType.str8 = omega arith
    small_number AttrType.str16 = omega arith
    small_number AttrType.str32 = omega arith
    small_number AttrType.str64 = omega arith
    small_number AttrType.str128 = omega arith
    small_number AttrType.str256 = omega arith

pub behind_header :
    (m : Bytes) (p : ℕ) (n : List ℕ) (t : AttrType) (others : List Attr)
    → Spells m p (packed ((n, t) ∷ others))
    → Spells m (p + 4) (n ++ packed others)
behind_header m p n t others s =
    Spells-right m p (bytes16 (length n) ++ bytes16 (number_of t)) (n ++ packed others) s

-- One round of the loop, and its end.
create_step :
    (f : ℕ) (m : Bytes) (i p l len k : ℕ) (attrs : List (ℕ × ℕ)) (m' : Bytes)
    → i < l
    → len < 65536
    → create_items f
        (store8 m (p + 4 + len) 0)
        (p + 4 + len)
        (p + 4 + len + 4)
        (load32 m (p + 4 + len))
        l
      ≡ some (attrs, m')
    → create_items (suc f) m i (p + 4) (len + 65536 * k) l
      ≡ some ((p + 4, type_to_size k) ∷ attrs, m')
unfolding create_items
create_step f m i p l len k attrs m' lt small rest =
    let on : ltb i l ≡ true = ground (arith, lt) in
    let low : (len + 65536 * k) % 65536 ≡ len = omega (arith, small) in
    let high : (len + 65536 * k) / 65536 ≡ k = omega (arith, small) in
    rw (on, low, high) (rw rest refl)

create_end :
    (f : ℕ) (m : Bytes) (i h next l : ℕ) → i ≡ l → create_items (suc f) m i h next l ≡ some ([], m)
unfolding create_items
create_end f m i h next l e = let off : ltb i l ≡ false = ground (arith, e) in rw off refl

-- The loop, from the attribute that is packed at `p` on.
create_items_lem :
    (f : ℕ) (m : Bytes) (i p l : ℕ) (n : List ℕ) (t : AttrType) (others : List Attr)
    → i < l
    → l < 65536
    → Spells m (p + 4) (n ++ packed others)
    → p + 4 + length n + length (packed others) ≡ l
    → length others + 1 < f
    → create_items f m i (p + 4) (length n + 65536 * number_of t) l
      ≡ some (attrs_at p ((n, t) ∷ others), closed m p ((n, t) ∷ others))
create_items_lem zero m i p l n t others lt small s end enough = absurd (omega (arith, enough))
create_items_lem (suc zero) m i p l n t others lt small s end enough =
    absurd (omega (arith, enough))
create_items_lem (suc (suc f)) m i p l n t [] lt small s end enough =
    let e = p + 4 + length n in
    create_step (suc f) m i p l (length n) (number_of t) [] (store8 m e 0) lt
      (omega (arith, small, end))
      (create_end f (store8 m e 0) e (e + 4) (load32 m e) l (omega (arith, end)))
create_items_lem (suc (suc f)) m i p l n t ((n2, t2) ∷ others) lt small s end enough =
    let e = p + 4 + length n in
    let behind : Spells m e (packed ((n2, t2) ∷ others)) =
      Spells-right m (p + 4) n (packed ((n2, t2) ∷ others)) s in
    let long = length-append n2 (packed others) in
    create_step (suc f) m i p l (length n) (number_of t) (attrs_at e ((n2, t2) ∷ others))
      (closed (store8 m e 0) e ((n2, t2) ∷ others)) lt (omega (arith, small, end))
      (ap (λ next. create_items (suc f) (store8 m e 0) e (e + 4) next l)
          (header_there m e n2 t2 others behind (omega (arith, small, end, long)))
        ∙ create_items_lem (suc f) (store8 m e 0) e e l n2 t2 others (omega (arith, end, long))
            small
            (Spells-store8 m e 0 (e + 4) (n2 ++ packed others) (inl (omega arith))
              (behind_header m e n2 t2 others behind))
            (omega (arith, end, long)) (omega (arith, enough)))

-- What stands before the first name stays.
pub Spells-closed :
    (m : Bytes) (p a : ℕ) (w : List ℕ) (attrs : List Attr)
    → a + length w ≤ p + 4
    → Spells m a w
    → Spells (closed m p attrs) a w
Spells-closed m p a w [] below s = s
Spells-closed m p a w ((n, t) ∷ others) below s =
    Spells-closed (store8 m (p + 4 + length n) 0) (p + 4 + length n) a w others
      (omega (arith, below))
      (Spells-store8 m (p + 4 + length n) 0 a w (inr (omega (arith, below))) s)

first_name :
    (m : Bytes) (p : ℕ) (n : List ℕ) (t : AttrType) (others : List Attr)
    → Spells m (p + 4) (n ++ packed others)
    → Spells (closed m p ((n, t) ∷ others)) (p + 4) (n ++ (0 ∷ []))
first_name m p n t others s =
    let e = p + 4 + length n in
    let m1 = store8 m e 0 in
    Spells-closed m1 e (p + 4) (n ++ (0 ∷ [])) others (omega (arith, length-append n (0 ∷ []))) (
      Spells-append m1 (p + 4) n (0 ∷ [])
        (Spells-store8 m e 0 (p + 4) n (inr (omega arith))
          (Spells-left m (p + 4) n (packed others) s))
        (ground arith, tt))

-- The names stand in what the loop leaves.
pub Named-closed :
    (m : Bytes) (p : ℕ) (n : List ℕ) (t : AttrType) (others : List Attr)
    → Spells m (p + 4) (n ++ packed others)
    → Named (closed m p ((n, t) ∷ others)) p ((n, t) ∷ others)
Named-closed m p n t [] s = (first_name m p n t [] s, tt)
Named-closed m p n t ((n2, t2) ∷ others) s =
    let e = p + 4 + length n in
    let behind = Spells-right m (p + 4) n (packed ((n2, t2) ∷ others)) s in
    (
      first_name m p n t ((n2, t2) ∷ others) s,
      Named-closed (store8 m e 0) e n2 t2 others (
          Spells-store8 m e 0 (e + 4) (n2 ++ packed others) (inl (omega arith))
            (behind_header m e n2 t2 others behind)),
    )

count_below : (attrs : List Attr) → length attrs ≤ length (packed attrs)
count_below [] = omega arith
count_below ((n, t) ∷ others) = omega (arith, count_below others, length-append n (packed others))

-- The server reads packed attributes back: where each name is, with the size of its type, and the
-- names stand there with a NUL behind each.
pub create_format_lem :
    (m : Bytes) (a : ℕ) (n : List ℕ) (t : AttrType) (others : List Attr)
    → 0 < length n
    → a + length (packed ((n, t) ∷ others)) < 65536
    → Spells m a (packed ((n, t) ∷ others))
    → create_format m a (length (packed ((n, t) ∷ others)))
      ≡ some (attrs_at a ((n, t) ∷ others), closed m a ((n, t) ∷ others))
unfolding create_format
create_format_lem m a n t others some_name small s =
    let l = length (packed ((n, t) ∷ others)) in
    let long = length-append n (packed others) in
    ap (λ next. create_items (suc l) m (a + 4) (a + 4) next (a + l))
      (header_there m a n t others s (omega (arith, small, long)))
    ∙ create_items_lem (suc l) m (a + 4) a (a + l) n t others (omega (arith, some_name, long)) small
        (behind_header m a n t others s) (omega (arith, long))
        (omega (arith, long, count_below others))
