-- ===== src/Linklist/Segment.antt =====
-- common/linklist.c: segments of doubly linked nodes.
use dsm_db.Shared.{
  ℕ, ◌≡◌, refl, ap, true, false, ◌==◌, ◌||◌, Option, some, List, [], ◌∷◌, ◌++◌, has, IsDistinct,
  arith,
}
use dsm_db.Linklist.{Node, Nodes, set_node, set_next, set_prev}

-- What the node before the segment points to, if `q` is behind it; and what the node behind points
-- back to, if `p` is before it.
abbrev pub first : List ℕ → Option ℕ → Option ℕ
first [] q = q
first (a ∷ xs) q = some a

abbrev pub last : Option ℕ → List ℕ → Option ℕ
last p [] = p
last p (a ∷ xs) = last (some a) xs

abbrev pub Seg : Nodes → Option ℕ → List ℕ → Option ℕ → Type 0
Seg h p [] q = Unit
Seg h p (a ∷ xs) q = ((h a).prev ≡ p) × ((h a).next ≡ first xs q) × Seg h (some a) xs q

-- A change of a node elsewhere.
pub Seg-set_node :
    (h : Nodes) (n : ℕ) (x : Node) (p : Option ℕ) (xs : List ℕ) (q : Option ℕ)
    → has n xs ≡ false
    → Seg h p xs q
    → Seg (set_node h n x) p xs q
Seg-set_node h n x p [] q out s = tt
Seg-set_node h n x p (a ∷ xs) q out s =
    let other : (a == n) ≡ false = ground (arith, out) in
    (rw other s.0, rw other s.1, Seg-set_node h n x (some a) xs q (ground (arith, out)) s.2)

pub Seg-append :
    (h : Nodes) (p : Option ℕ) (xs ys : List ℕ) (q : Option ℕ)
    → Seg h p xs (first ys q)
    → Seg h (last p xs) ys q
    → Seg h p (xs ++ ys) q
Seg-append h p [] ys q s t = t
Seg-append h p (a ∷ []) ys q s t = (s.0, s.1, t)
Seg-append h p (a ∷ b ∷ xs) ys q s t = (s.0, s.1, Seg-append h (some a) (b ∷ xs) ys q s.2 t)

pub Seg-split :
    (h : Nodes) (p : Option ℕ) (xs ys : List ℕ) (q : Option ℕ)
    → Seg h p (xs ++ ys) q
    → Seg h p xs (first ys q) × Seg h (last p xs) ys q
Seg-split h p [] ys q s = (tt, s)
Seg-split h p (a ∷ []) ys q s = ((s.0, s.1, tt), s.2)
Seg-split h p (a ∷ b ∷ xs) ys q s =
    let (l, r) = Seg-split h (some a) (b ∷ xs) ys q s.2 in ((s.0, s.1, l), r)

-- The node before the first one is another.
pub Seg-set_prev :
    (h : Nodes) (p p' : Option ℕ) (a : ℕ) (xs : List ℕ) (q : Option ℕ)
    → has a xs ≡ false
    → Seg h p (a ∷ xs) q
    → Seg (set_prev h a p') p' (a ∷ xs) q
Seg-set_prev h p p' a xs q out s =
    let same : (a == a) ≡ true = ground arith in
    (rw same refl, rw same s.1, Seg-set_node h a _ (some a) xs q out s.2)

-- The node behind the last one is another.
pub Seg-set_next :
    (h : Nodes) (p : Option ℕ) (xs : List ℕ) (t : ℕ) (q q' : Option ℕ)
    → has t xs ≡ false
    → Seg h p (xs ++ (t ∷ [])) q
    → Seg (set_next h t q') p (xs ++ (t ∷ [])) q'
Seg-set_next h p xs t q q' out s =
    let (l, r) = Seg-split h p xs (t ∷ []) q s in
    let same : (t == t) ≡ true = ground arith in
    Seg-append (set_next h t q') p xs (t ∷ []) q' (Seg-set_node h t _ p xs (some t) out l)
      (rw same r.0, rw same refl, tt)

pub last_snoc : (p : Option ℕ) (xs : List ℕ) (t : ℕ) → last p (xs ++ (t ∷ [])) ≡ some t
last_snoc p [] t = refl
last_snoc p (a ∷ xs) t = last_snoc (some a) xs t

-- A list that is not empty has a last element.
pub snoc_view : (a : ℕ) (xs : List ℕ) → (ys : List ℕ) × (t : ℕ) × (a ∷ xs ≡ ys ++ (t ∷ []))
snoc_view a [] = ([], a, refl)
snoc_view a (b ∷ xs) = let (ys, t, e) = snoc_view b xs in (a ∷ ys, t, ap (λ z. a ∷ z) e)

pub has_append : (n : ℕ) (xs ys : List ℕ) → has n (xs ++ ys) ≡ has n xs || has n ys
has_append n [] ys = refl
has_append n (a ∷ xs) ys = ground (arith, has_append n xs ys)

pub IsDistinct-append : (xs ys : List ℕ) → IsDistinct (xs ++ ys) → IsDistinct xs × IsDistinct ys
IsDistinct-append [] ys d = (tt, d)
IsDistinct-append (a ∷ xs) ys d =
    let (l, r) = IsDistinct-append xs ys d.1 in ((ground (arith, d.0, has_append a xs ys), l), r)

pub IsDistinct-snoc :
    (xs : List ℕ) (n : ℕ) → IsDistinct xs → has n xs ≡ false → IsDistinct (xs ++ (n ∷ []))
IsDistinct-snoc [] n d out = (refl, tt)
IsDistinct-snoc (a ∷ xs) n d out = (
  ground (arith, d.0, out, has_append a xs (n ∷ [])),
  IsDistinct-snoc xs n d.1 (ground (arith, out)),
)

pub not_in_front : (xs : List ℕ) (t : ℕ) → IsDistinct (xs ++ (t ∷ [])) → has t xs ≡ false
not_in_front [] t d = refl
not_in_front (a ∷ xs) t d = ground (arith, d.0, has_append a xs (t ∷ []), not_in_front xs t d.1)

pub outside_snoc :
    (b : ℕ) (xs : List ℕ) (n : ℕ)
    → has b (xs ++ (n ∷ [])) ≡ false
    → (has b xs ≡ false) × ((b == n) ≡ false)
outside_snoc b xs n out =
    (ground (arith, out, has_append b xs (n ∷ [])), ground (arith, out, has_append b xs (n ∷ [])))
