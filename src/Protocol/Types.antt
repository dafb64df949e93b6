-- ===== src/Protocol/Types.antt =====
-- client/db_client.c: the attributes of a new table, in `__attr_type_formater`.
use dsm_db.Shared.{
  ℕ, suc, ◌+◌, ◌<◌, ◌≡◌, refl, sym, ap, ◌∙◌, false, ◌==◌, Option, some, none, List, [], ◌∷◌, ◌++◌,
  length, length-append, take, drop, take_all, drop_all, append_assoc, append_nil, arith,
}
use dsm_db.Protocol.{codes, bytes16}
use dsm_db.Protocol.Client.{str_to_type, put_attr, type_items, attr_type_formater}
use dsm_db.Protocol.Values.{AllWord}

pub data AttrType : Type 0 where
  int16 : AttrType
  int32 : AttrType
  int64 : AttrType
  str8 : AttrType
  str16 : AttrType
  str32 : AttrType
  str64 : AttrType
  str128 : AttrType
  str256 : AttrType

-- How a type is typed in, and its number.
abbrev pub text : AttrType → List ℕ
text int16 = codes "int16"
text int32 = codes "int32"
text int64 = codes "int64"
text str8 = codes "str8"
text str16 = codes "str16"
text str32 = codes "str32"
text str64 = codes "str64"
text str128 = codes "str128"
text str256 = codes "str256"

abbrev pub number_of : AttrType → ℕ
number_of int16 = 1
number_of int32 = 2
number_of int64 = 3
number_of str8 = 4
number_of str16 = 5
number_of str32 = 6
number_of str64 = 7
number_of str128 = 8
number_of str256 = 9

abbrev pub Attr : Type 0
Attr = List ℕ × AttrType

-- A name of letters, digits and underscores, that is not empty.
abbrev pub AllNamed : List Attr → Type 0
AllNamed [] = Unit
AllNamed ((n, t) ∷ others) = ((0 < length n) × AllWord n) × AllNamed others

-- The attributes as they are typed in, each but the first behind a comma.
abbrev pub typed : Attr → List ℕ → List ℕ
typed (n, t) tail = n ++ (b' ' ∷ text t ++ tail)

abbrev pub more_attrs : List Attr → List ℕ
more_attrs [] = []
more_attrs (a ∷ others) = b',' ∷ typed a (more_attrs others)

-- The attributes as they are sent.
abbrev pub packed : List Attr → List ℕ
packed [] = []
packed ((n, t) ∷ others) = (bytes16 (length n) ++ bytes16 (number_of t)) ++ (n ++ packed others)

-- The start of a string tells its type.
str_to_type_lem : (t : AttrType) (tail : List ℕ) → str_to_type (text t ++ tail) ≡ number_of t
unfolding str_to_type
str_to_type_lem int16 tail = refl
str_to_type_lem int32 tail = refl
str_to_type_lem int64 tail = refl
str_to_type_lem str8 tail = refl
str_to_type_lem str16 tail = refl
str_to_type_lem str32 tail = refl
str_to_type_lem str64 tail = refl
str_to_type_lem str128 tail = refl
str_to_type_lem str256 tail = refl

text-AllWord : (t : AttrType) → AllWord (text t)
text-AllWord int16 = (refl, (refl, (refl, (refl, (refl, tt)))))
text-AllWord int32 = (refl, (refl, (refl, (refl, (refl, tt)))))
text-AllWord int64 = (refl, (refl, (refl, (refl, (refl, tt)))))
text-AllWord str8 = (refl, (refl, (refl, (refl, tt))))
text-AllWord str16 = (refl, (refl, (refl, (refl, (refl, tt)))))
text-AllWord str32 = (refl, (refl, (refl, (refl, (refl, tt)))))
text-AllWord str64 = (refl, (refl, (refl, (refl, (refl, tt)))))
text-AllWord str128 = (refl, (refl, (refl, (refl, (refl, (refl, tt))))))
text-AllWord str256 = (refl, (refl, (refl, (refl, (refl, (refl, tt))))))

same_items :
    (str cs : List ℕ) (h h' len len' : ℕ) (name : Option (List ℕ)) (out : List ℕ)
    → h ≡ h'
    → len ≡ len'
    → type_items str cs h len name out ≡ type_items str cs h' len' name out
same_items str cs h h' len len' name out e e' = cc

-- The characters of a word are counted.
type_items-word :
    (str w cs : List ℕ) (h len : ℕ) (name : Option (List ℕ)) (out : List ℕ)
    → AllWord w
    → type_items str (w ++ cs) h len name out ≡ type_items str cs h (len + length w) name out
unfolding type_items
type_items-word str [] cs h len name out word =
    same_items str cs h h len (len + 0) name out refl (omega arith)
type_items-word str (c ∷ w) cs h len name out word =
    let not_comma : (c == b',') ≡ false = ground (arith, word.0) in
    let not_blank : (c == b' ') ≡ false = ground (arith, word.0) in
    rw (word.0, not_blank, not_comma)
      (type_items-word str w cs h (len + 1) name out word.1
        ∙ same_items str cs h h (len + 1 + length w) (len + suc (length w)) name out refl
            (omega arith))

-- The name before a blank is copied.
named_step :
    (str pre n cs : List ℕ) (out : List ℕ)
    → str ≡ pre ++ (n ++ (b' ' ∷ cs))
    → type_items str (b' ' ∷ cs) (length pre) (length n) none out
      ≡ type_items str cs (length pre + (length n + 1)) 0 (some n) out
unfolding type_items
named_step str pre n cs out e =
    ap (λ x. type_items str cs (length pre + (length n + 1)) 0 (some x) out)
      (ap (λ s. take (length n) (drop (length pre) s)) e
        ∙ ap (take (length n)) (drop_all pre (n ++ (b' ' ∷ cs)))
        ∙ take_all n (b' ' ∷ cs))

-- The type stands behind the blank.
type_there :
    (str pre n tail : List ℕ) (t : AttrType)
    → str ≡ pre ++ (n ++ (b' ' ∷ text t ++ tail))
    → str_to_type (drop (length pre + (length n + 1)) str) ≡ number_of t
type_there str pre n tail t e =
    let front = pre ++ (n ++ (b' ' ∷ [])) in
    let same : str ≡ front ++ (text t ++ tail) =
      e
      ∙ ap (λ x. pre ++ x) (sym (append_assoc n (b' ' ∷ []) (text t ++ tail)))
      ∙ sym (append_assoc pre (n ++ (b' ' ∷ [])) (text t ++ tail)) in
    let long : length pre + (length n + 1) ≡ length front =
      omega (arith, length-append pre (n ++ (b' ' ∷ [])), length-append n (b' ' ∷ [])) in
    ap (λ k. str_to_type (drop k str)) long
    ∙ ap (λ s. str_to_type (drop (length front) s)) same
    ∙ ap str_to_type (drop_all front (text t ++ tail))
    ∙ str_to_type_lem t tail

-- One attribute, up to what is behind it.
first_attr :
    (str pre n : List ℕ) (t : AttrType) (tail : List ℕ) (out : List ℕ)
    → str ≡ pre ++ typed (n, t) tail
    → AllWord n
    → type_items str (typed (n, t) tail) (length pre) 0 none out
      ≡ type_items str tail (length pre + (length n + 1)) (length (text t)) (some n) out
first_attr str pre n t tail out e word =
    let h = length pre in
    type_items-word str n (b' ' ∷ text t ++ tail) h 0 none out word
    ∙ same_items str (b' ' ∷ text t ++ tail) h h (0 + length n) (length n) none out refl
        (omega arith)
    ∙ named_step str pre n (text t ++ tail) out e
    ∙ type_items-word str (text t) tail (h + (length n + 1)) 0 (some n) out (text-AllWord t)
    ∙ same_items str tail (h + (length n + 1)) (h + (length n + 1)) (0 + length (text t))
        (length (text t)) (some n) out refl (omega arith)

put_attr_lem :
    (out n : List ℕ) (k k' : ℕ)
    → k ≡ k'
    → put_attr out (some n) k ≡ some (((out ++ bytes16 (length n)) ++ bytes16 k') ++ n)
put_attr_lem out n k k' e = ap (put_attr out (some n)) e

regroup :
    (out x y n others : List ℕ)
    → ((out ++ x) ++ y) ++ (n ++ others) ≡ out ++ ((x ++ y) ++ (n ++ others))
regroup out x y n others =
    ap (λ s. s ++ (n ++ others)) (append_assoc out x y) ∙ append_assoc out (x ++ y) (n ++ others)

-- A comma behind an attribute, seen from the start of the string.
typed_front :
    (pre n : List ℕ) (t : AttrType) (tail : List ℕ)
    → pre ++ typed (n, t) (b',' ∷ tail) ≡ (pre ++ typed (n, t) (b',' ∷ [])) ++ tail
typed_front pre n t tail =
    ap (λ x. pre ++ (n ++ (b' ' ∷ x))) (sym (append_assoc (text t) (b',' ∷ []) tail))
    ∙ ap (λ x. pre ++ x) (sym (append_assoc n (b' ' ∷ text t ++ (b',' ∷ [])) tail))
    ∙ sym (append_assoc pre (typed (n, t) (b',' ∷ [])) tail)

-- At the comma behind an attribute.
comma_step :
    (str pre n : List ℕ) (t : AttrType) (tail : List ℕ) (out : List ℕ)
    → str ≡ pre ++ typed (n, t) (b',' ∷ tail)
    → type_items str (b',' ∷ tail) (length pre + (length n + 1)) (length (text t)) (some n) out
      ≡ type_items str tail
          (length (pre ++ typed (n, t) (b',' ∷ [])))
          0
          none
          (((out ++ bytes16 (length n)) ++ bytes16 (number_of t)) ++ n)
unfolding type_items
comma_step str pre n t tail out e =
    let out' = out ++ bytes16 (length n) in
    let front = typed (n, t) (b',' ∷ []) in
    ap
      (λ k.
        type_items str tail (length pre + (length n + 1) + (length (text t) + 1)) 0 none
          ((out' ++ bytes16 k) ++ n))
      (type_there str pre n (b',' ∷ tail) t e)
    ∙ same_items str tail (length pre + (length n + 1) + (length (text t) + 1))
        (length (pre ++ front)) 0 0 none ((out' ++ bytes16 (number_of t)) ++ n)
        (omega (
          arith,
          length-append pre front,
          length-append n (b' ' ∷ text t ++ (b',' ∷ [])),
          length-append (text t) (b',' ∷ []),
        ))
        refl

-- All the attributes from the one that starts behind `pre`.
type_items-attrs :
    (str pre n : List ℕ) (t : AttrType) (others : List Attr) (out : List ℕ)
    → str ≡ pre ++ typed (n, t) (more_attrs others)
    → AllNamed ((n, t) ∷ others)
    → type_items str (typed (n, t) (more_attrs others)) (length pre) 0 none out
      ≡ some (out ++ packed ((n, t) ∷ others))
unfolding type_items
type_items-attrs str pre n t [] out e h =
    first_attr str pre n t [] out e h.0.1
    ∙ put_attr_lem out n _ (number_of t) (type_there str pre n [] t e)
    ∙ ap some (
        ap (λ s. ((out ++ bytes16 (length n)) ++ bytes16 (number_of t)) ++ s) (sym (append_nil n))
        ∙ regroup out (bytes16 (length n)) (bytes16 (number_of t)) n [])
type_items-attrs str pre n t ((n2, t2) ∷ others) out e h =
    let tail = typed (n2, t2) (more_attrs others) in
    let pre' = pre ++ typed (n, t) (b',' ∷ []) in
    let out' = ((out ++ bytes16 (length n)) ++ bytes16 (number_of t)) ++ n in
    first_attr str pre n t (b',' ∷ tail) out e h.0.1
    ∙ comma_step str pre n t tail out e
    ∙ type_items-attrs str pre' n2 t2 others out' (e ∙ typed_front pre n t tail) h.1
    ∙ ap some (
        append_assoc ((out ++ bytes16 (length n)) ++ bytes16 (number_of t)) n
          (packed ((n2, t2) ∷ others))
        ∙ regroup out (bytes16 (length n)) (bytes16 (number_of t)) n (packed ((n2, t2) ∷ others)))

-- The client packs typed attributes: of each one the length of its name, the number of its type and
-- its name.
pub attr_type_formater_lem :
    (n : List ℕ) (t : AttrType) (others : List Attr)
    → AllNamed ((n, t) ∷ others)
    → attr_type_formater (typed (n, t) (more_attrs others)) ≡ some (packed ((n, t) ∷ others))
unfolding attr_type_formater
attr_type_formater_lem n t others h =
    type_items-attrs (typed (n, t) (more_attrs others)) [] n t others [] refl h
