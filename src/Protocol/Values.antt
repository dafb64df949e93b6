-- ===== src/Protocol/Values.antt =====
-- client/db_client.c, src/cmd/cmd.c: the values of a record, from `__attr_value_formater` to
-- `__tinsert_format`.
use dsm_db.Shared.{
  ℕ, suc, ◌+◌, ◌-◌, ◌<◌, ◌≡◌, refl, sym, ap, ◌∙◌, true, false, ◌==◌, List, [], ◌∷◌, ◌++◌, length,
  length-append, take, drop, ltb, some, take_all, drop_all, append_assoc, arith,
}
use dsm_db.Protocol.Client.{is_word, value_items, attr_value_formater}

abbrev pub AllWord : List ℕ → Type 0
AllWord [] = Unit
AllWord (c ∷ w) = (is_word c ≡ true) × AllWord w

-- A value: at least one character, and of letters, digits and underscores only.
abbrev pub IsValue : List ℕ → Type 0
IsValue w = (0 < length w) × AllWord w

abbrev pub AllValues : List (List ℕ) → Type 0
AllValues [] = Unit
AllValues (w ∷ ws) = IsValue w × AllValues ws

-- The values as they are typed in, each but the first behind a comma.
abbrev pub more_values : List (List ℕ) → List ℕ
more_values [] = []
more_values (w ∷ ws) = b',' ∷ w ++ more_values ws

-- The values with a NUL behind each.
abbrev pub terminated : List (List ℕ) → List ℕ
terminated [] = []
terminated (w ∷ ws) = w ++ (0 ∷ terminated ws)

-- Where the values start.
abbrev pub starts_from : ℕ → List (List ℕ) → List ℕ
starts_from a [] = []
starts_from a (w ∷ ws) = a ∷ starts_from (a + length w + 1) ws

same_items :
    (str cs : List ℕ) (i i' len len' : ℕ) (out : List ℕ)
    → i ≡ i'
    → len ≡ len'
    → value_items str cs i len out ≡ value_items str cs i' len' out
same_items str cs i i' len len' out e e' = cc

-- The characters of a value are counted.
value_items-word :
    (str w cs : List ℕ) (i len : ℕ) (out : List ℕ)
    → AllWord w
    → value_items str (w ++ cs) i len out ≡ value_items str cs (i + length w) (len + length w) out
unfolding value_items
value_items-word str [] cs i len out h =
    same_items str cs i (i + 0) len (len + 0) out (omega arith) (omega arith)
value_items-word str (c ∷ w) cs i len out h =
    let not_comma : (c == b',') ≡ false = ground (arith, h.0) in
    rw (h.0, not_comma)
      (value_items-word str w cs (i + 1) (len + 1) out h.1
        ∙ same_items str cs (i + 1 + length w) (i + suc (length w)) (len + 1 + length w)
            (len + suc (length w)) out (omega arith) (omega arith))

-- The characters that were counted are the value.
pub last_word :
    (pre w tail : List ℕ)
    → take (length w) (drop (length pre + length w - length w) (pre ++ (w ++ tail))) ≡ w
last_word pre w tail =
    ap (λ n. take (length w) (drop n (pre ++ (w ++ tail)))) (omega arith)
    ∙ ap (take (length w)) (drop_all pre (w ++ tail))
    ∙ take_all w tail

-- A separator behind a value, seen from the start of the string.
pub behind_value :
    (pre w tail : List ℕ) (c : ℕ) → pre ++ (w ++ (c ∷ tail)) ≡ (pre ++ (w ++ (c ∷ []))) ++ tail
behind_value pre w tail c =
    ap (λ t. pre ++ t) (sym (append_assoc w (c ∷ []) tail))
    ∙ sym (append_assoc pre (w ++ (c ∷ [])) tail)

-- The rest of the values, where the value `w` has just been counted.
value_items-more :
    (str pre w : List ℕ) (ws : List (List ℕ)) (out : List ℕ)
    → pre ++ (w ++ more_values ws) ≡ str
    → AllValues ws
    → value_items str (more_values ws) (length pre + length w) (length w) out
      ≡ out ++ terminated (w ∷ ws)
unfolding value_items
value_items-more str pre w [] out e h =
    ap (λ t. (out ++ t) ++ (0 ∷ []))
      (ap (λ s. take (length w) (drop (length pre + length w - length w) s)) (sym e)
        ∙ last_word pre w [])
    ∙ append_assoc out w (0 ∷ [])
value_items-more str pre w (v ∷ vs) out e h =
    let out' = (out ++ w) ++ (0 ∷ []) in
    let pre' = pre ++ (w ++ (b',' ∷ [])) in
    ap
      (λ t.
        value_items str (v ++ more_values vs) (length pre + length w + 1) 0
          ((out ++ t) ++ (0 ∷ [])))
      (ap (λ s. take (length w) (drop (length pre + length w - length w) s)) (sym e)
        ∙ last_word pre w (more_values (v ∷ vs)))
    ∙ value_items-word str v (more_values vs) (length pre + length w + 1) 0 out' h.0.1
    ∙ same_items str (more_values vs) (length pre + length w + 1 + length v)
        (length pre' + length v) (0 + length v) (length v) out'
        (omega (arith, length-append pre (w ++ (b',' ∷ [])), length-append w (b',' ∷ [])))
        (omega arith)
    ∙ value_items-more str pre' v vs out' (sym (behind_value pre w (v ++ more_values vs) b',') ∙ e)
        h.1
    ∙ (append_assoc (out ++ w) (0 ∷ []) (terminated (v ∷ vs))
        ∙ append_assoc out w (0 ∷ terminated (v ∷ vs)))

length-terminated :
    (w : List ℕ) (ws : List (List ℕ))
    → length (terminated (w ∷ ws)) ≡ length (w ++ more_values ws) + 1
length-terminated w [] = omega (arith, length-append w (0 ∷ []), length-append w [])
length-terminated w (v ∷ vs) = omega (
  arith,
  length-terminated v vs,
  length-append w (0 ∷ terminated (v ∷ vs)),
  length-append w (more_values (v ∷ vs)),
)

-- The client turns typed values with commas between them into the values with a NUL behind each. That
-- takes one byte more than the string has characters, so the block of malloc has to have one more.
pub attr_value_formater_lem :
    (atoi : List ℕ → ℕ) (usable : ℕ → ℕ) (w : List ℕ) (ws : List (List ℕ))
    → AllValues (w ∷ ws)
    → length (w ++ more_values ws) < usable (length (w ++ more_values ws))
    → attr_value_formater atoi usable (w ++ more_values ws) ≡ some (terminated (w ∷ ws))
unfolding attr_value_formater
attr_value_formater_lem atoi usable w ws h larger =
    let fits : ltb (usable (length (w ++ more_values ws))) (length (terminated (w ∷ ws))) ≡ false =
      ground (arith, larger, length-terminated w ws) in
    rw whole (rw fits refl)
  where
    whole : value_items (w ++ more_values ws) (w ++ more_values ws) 0 0 [] ≡ terminated (w ∷ ws)
    whole =
        let str = w ++ more_values ws in
        value_items-word str w (more_values ws) 0 0 [] h.0.1
        ∙ same_items str (more_values ws) (0 + length w) (length {A = ℕ} [] + length w)
            (0 + length w) (length w) [] (omega arith) (omega arith)
        ∙ value_items-more str [] w ws [] refl h.1
