-- ===== src/Protocol/Reading.antt =====
-- src/cmd/cmd.c: `__tinsert_format` on values with a NUL behind each.
use dsm_db.Shared.{
  ℕ, zero, suc, ◌+◌, ◌-◌, ◌≤◌, ◌<◌, ◌≡◌, ap, ◌∙◌, true, false, ◌==◌, some, List, [], ◌∷◌, ◌++◌,
  length, length-append, append_assoc, subst, if◌then◌else◌, arith,
}
use dsm_db.Shared.Memory.{Bytes}
use dsm_db.Protocol.{Spells}
use dsm_db.Protocol.Spells.{Spells-at, Spells-left, Spells-right}
use dsm_db.Protocol.Values.{AllWord, AllValues, terminated, starts_from}
use dsm_db.Protocol.Server.{tinsert_items, tinsert_format}

same_items :
    (m : Bytes) (a f f' i i' h h' : ℕ)
    → f ≡ f'
    → i ≡ i'
    → h ≡ h'
    → tinsert_items f m a i h ≡ tinsert_items f' m a i' h'
same_items m a f f' i i' h h' ef ei eh = cc

-- The characters of a value are passed.
tinsert_items-word :
    (m : Bytes) (a : ℕ) (w : List ℕ) (f i h : ℕ)
    → AllWord w
    → Spells m (a + i) w
    → length w ≤ f
    → tinsert_items f m a i h ≡ tinsert_items (f - length w) m a (i + length w) (h + length w)
unfolding tinsert_items
tinsert_items-word m a [] f i h word s room =
    same_items m a f (f - 0) i (i + 0) h (h + 0) (omega arith) (omega arith) (omega arith)
tinsert_items-word m a (c ∷ w) zero i h word s room = absurd (omega (arith, room))
tinsert_items-word m a (c ∷ w) (suc f) i h word s room =
    let not_end : (m (a + i) == 0) ≡ false = ground (arith, s.0, word.0) in
    rw not_end (
      tinsert_items-word m a w f (i + 1) (h + 1) word.1
        (Spells-at m (suc (a + i)) (a + (i + 1)) w (omega arith) s.1) (omega (arith, room))
      ∙ same_items m a (f - length w) (suc f - suc (length w)) (i + 1 + length w)
          (i + suc (length w)) (h + 1 + length w) (h + suc (length w)) (omega arith) (omega arith)
          (omega arith))

-- A value, and what is behind it.
pub Spells-terminated :
    (m : Bytes) (a b : ℕ) (w : List ℕ) (ws : List (List ℕ))
    → a ≡ b
    → Spells m a (terminated (w ∷ ws) ++ (0 ∷ []))
    → Spells m b w × Spells m (b + length w) ((0 ∷ terminated ws) ++ (0 ∷ []))
Spells-terminated m a b w ws e s =
    let t : Spells m b (w ++ ((0 ∷ terminated ws) ++ (0 ∷ []))) =
      subst (λ x. Spells m b x) (append_assoc w (0 ∷ terminated ws) (0 ∷ []))
        (Spells-at m a b _ e s) in
    (
      Spells-left m b w ((0 ∷ terminated ws) ++ (0 ∷ [])) t,
      Spells-right m b w ((0 ∷ terminated ws) ++ (0 ∷ [])) t,
    )

-- At the NUL behind a value that starts at `s`.
tinsert_items-more :
    (m : Bytes) (a s i h f : ℕ) (ws : List (List ℕ))
    → AllValues ws
    → 0 < i
    → i - h + (if i == h then 0 else 1) ≡ s
    → Spells m (a + i) ((0 ∷ terminated ws) ++ (0 ∷ []))
    → length (terminated ws) < f
    → tinsert_items f m a i h ≡ some ((a + s) ∷ starts_from (a + i + 1) ws)
unfolding tinsert_items
tinsert_items-more m a s i h zero ws all pos start sp room = absurd (omega (arith, room))
tinsert_items-more m a s i h (suc f) [] all pos start sp room =
    let e : a + i + 1 ≡ suc (a + i) = omega arith in
    let here : (m (a + i) == 0) ≡ true = ground (arith, sp.0) in
    let last : (m (a + i + 1) == 0) ≡ true = ground (arith, ap m e ∙ sp.1.0) in
    rw (here, last) (ap (λ x. some (x ∷ [])) (omega (arith, start)))
tinsert_items-more m a s i h (suc f) ((c ∷ v) ∷ vs) all pos start sp room =
    let w = c ∷ v in
    let n = length w in
    let e : a + i + 1 ≡ suc (a + i) = omega arith in
    let here : (m (a + i) == 0) ≡ true = ground (arith, sp.0) in
    let next : m (a + i + 1) ≡ c = ap m e ∙ sp.1.0 in
    let more : (m (a + i + 1) == 0) ≡ false = ground (arith, next, all.0.1.0) in
    let fits : n + length (terminated vs) < f =
      omega (arith, room, length-append w (0 ∷ terminated vs)) in
    let (word, behind) = Spells-terminated m (suc (a + i)) (a + (i + 1)) w vs (omega arith) sp.1 in
    let rest : tinsert_items f m a (i + 1) 1
        ≡ some ((a + (i + 1)) ∷ starts_from (a + (i + 1 + n) + 1) vs) =
      tinsert_items-word m a w f (i + 1) 1 all.0.1 word (omega (arith, fits))
      ∙ tinsert_items-more m a (i + 1) (i + 1 + n) (1 + n) (f - n) vs all.1 (omega arith)
          (ground (arith, pos))
          (Spells-at m (a + (i + 1) + n) (a + (i + 1 + n)) ((0 ∷ terminated vs) ++ (0 ∷ []))
            (omega arith) behind)
          (omega (arith, fits)) in
    rw (here, more, rest) (positions a s i h n start vs)
  where
    positions :
        (a s i h n : ℕ)
        → i - h + (if i == h then 0 else 1) ≡ s
        → (vs : List (List ℕ))
        → some (
            (a + (i - h) + (if i == h then 0 else 1))
            ∷ (a + (i + 1))
            ∷ starts_from (a + (i + 1 + n) + 1) vs)
          ≡ some ((a + s) ∷ (a + i + 1) ∷ starts_from (a + i + 1 + n + 1) vs)
    positions a s i h n start vs =
        let e0 : a + (i - h) + (if i == h then 0 else 1) ≡ a + s = omega (arith, start) in
        let e1 : a + (i + 1) ≡ a + i + 1 = omega arith in
        let e2 : a + (i + 1 + n) + 1 ≡ a + i + 1 + n + 1 = omega arith in cc (e0, e1, e2)
tinsert_items-more m a s i h (suc f) ([] ∷ vs) all pos start sp room =
    absurd (omega (arith, all.0.0))

-- The server finds the start of every value that has a NUL behind it, if one more NUL is there at the
-- end.
pub tinsert_format_lem :
    (m : Bytes) (a f : ℕ) (w : List ℕ) (ws : List (List ℕ))
    → AllValues (w ∷ ws)
    → Spells m a (terminated (w ∷ ws) ++ (0 ∷ []))
    → length (terminated (w ∷ ws)) ≤ f
    → tinsert_format f m a ≡ some (starts_from a (w ∷ ws))
unfolding tinsert_format
tinsert_format_lem m a f w ws all sp room =
    let n = length w in
    let fits : n + length (terminated ws) < f =
      omega (arith, room, length-append w (0 ∷ terminated ws)) in
    let (word, behind) = Spells-terminated m a (a + 0) w ws (omega arith) sp in
    tinsert_items-word m a w f 0 0 all.0.1 word (omega (arith, fits))
    ∙ tinsert_items-more m a 0 (0 + n) (0 + n) (f - n) ws all.1 (omega (arith, all.0.0))
        (ground arith)
        (Spells-at m (a + 0 + n) (a + (0 + n)) ((0 ∷ terminated ws) ++ (0 ∷ [])) (omega arith)
          behind)
        (omega (arith, fits))
    ∙ (let e0 : a + 0 ≡ a = omega arith in
        let e1 : a + (0 + n) + 1 ≡ a + n + 1 = omega arith in cc (e0, e1))
