-- ===== src/Wrap/Whole.antt =====
-- src/network/wrap.c: what is read and written in parts is read and written whole.
use dsm_db.Shared.{
  ℕ, zero, suc, ◌+◌, ◌<◌, ◌≡◌, inl, inr, refl, ◌∙◌, sym, ap, true, false, ◌==◌, some, none, List,
  [], ◌∷◌, ◌++◌, length, length-append, arith, Bool-cases,
}
use dsm_db.Wrap.{Received, Sent, wrap_recv, wrap_send}

-- The outcomes of recv that are no failure, and the bytes that they bring.
pub data Arrives : List Received → List ℕ → Type 0 where
  done : Arrives [] []
  later :
      {rs : List Received}
      → {bytes : List ℕ} → Arrives rs bytes
      → Arrives (Received.again ∷ rs) bytes
  part :
      {rs : List Received}
      → {bytes : List ℕ} → (chunk : List ℕ) → Arrives rs bytes
      → Arrives (Received.got chunk ∷ rs) (chunk ++ bytes)

append_assoc : (xs ys zs : List ℕ) → (xs ++ ys) ++ zs ≡ xs ++ (ys ++ zs)
append_assoc [] ys zs = refl
append_assoc (x ∷ xs) ys zs = ap (λ l. x ∷ l) (append_assoc xs ys zs)

append_nil : (xs ys : List ℕ) → length ys ≡ 0 → xs ++ ys ≡ xs
append_nil [] [] h = refl
append_nil [] (y ∷ ys) h = absurd (omega arith)
append_nil (x ∷ xs) ys h = ap (λ l. x ∷ l) (append_nil xs ys h)

recv_rest :
    (rs : List Received) (buf bytes : List ℕ) (len : ℕ)
    → Arrives rs bytes
    → length buf < len
    → length buf + length bytes ≡ len
    → wrap_recv rs buf len ≡ some (some (buf ++ bytes))
unfolding wrap_recv
recv_rest rs buf bytes len done lt e = absurd (omega arith)
recv_rest rs buf bytes len (later a) lt e = recv_rest _ buf bytes len a lt e
recv_rest rs buf bytes len (part {rs = rs'} {bytes = rest} chunk a) lt e =
    elim (Bool-cases (length (buf ++ chunk) == len)) [
      | inl all ↦ rw all (
          ap (λ l. some (some l))
            (sym
              (sym (append_assoc buf chunk rest) ∙ append_nil (buf ++ chunk) rest (nothing all))))
      | inr more ↦ rw more (
          recv_rest rs' (buf ++ chunk) rest len a (ground (arith, total, length-append buf chunk))
            total
          ∙ ap (λ l. some (some l)) (append_assoc buf chunk rest))
    ]
  where
    total : length (buf ++ chunk) + length rest ≡ len
    total = omega (arith, e, length-append buf chunk, length-append chunk rest)

    nothing : (length (buf ++ chunk) == len) ≡ true → length rest ≡ 0
    nothing all = ground (arith, total)

-- The outcomes of recv, none of them a failure, bring `bytes`, as many as are asked for, and at
-- least one. Then `wrap_recv` returns, with these bytes in the buffer, however they come in parts.
pub wrap_recv_lem :
    (rs : List Received) (bytes : List ℕ)
    → Arrives rs bytes
    → 0 < length bytes
    → wrap_recv rs [] (length bytes) ≡ some (some bytes)
wrap_recv_lem rs bytes a h = recv_rest rs [] bytes (length bytes) a h (omega arith)

-- The peer has closed the connection: each recv brings no byte.
abbrev pub closed : ℕ → List Received
closed zero = []
closed (suc n) = Received.got [] ∷ closed n

Arrives-closed :
    (rs : List Received) (bytes : List ℕ) (n : ℕ)
    → Arrives rs bytes
    → Arrives (rs ++ closed n) bytes
Arrives-closed rs bytes zero done = done
Arrives-closed rs bytes (suc n) done = part [] (Arrives-closed [] [] n done)
Arrives-closed rs bytes n (later a) = later (Arrives-closed _ bytes n a)
Arrives-closed rs bytes n (part chunk a) = part chunk (Arrives-closed _ _ n a)

recv_short :
    (rs : List Received) (buf bytes : List ℕ) (len : ℕ)
    → Arrives rs bytes
    → length buf + length bytes < len
    → wrap_recv rs buf len ≡ none
unfolding wrap_recv
recv_short rs buf bytes len done lt = refl
recv_short rs buf bytes len (later a) lt = recv_short _ buf bytes len a lt
recv_short rs buf bytes len (part {rs = rs'} {bytes = rest} chunk a) lt =
    let total : length (buf ++ chunk) + length rest < len =
      omega (arith, length-append buf chunk, length-append chunk rest) in
    let more : (length (buf ++ chunk) == len) ≡ false = ground (arith, total) in
    rw more (recv_short rs' (buf ++ chunk) rest len a total)

-- The peer closes the connection after the outcomes of recv, none of them a failure, brought fewer
-- bytes than are asked for. Then `wrap_recv` has not returned, however many more calls of recv it
-- made.
pub wrap_recv-closed :
    (rs : List Received) (bytes : List ℕ) (len n : ℕ)
    → Arrives rs bytes
    → length bytes < len
    → wrap_recv (rs ++ closed n) [] len ≡ none
wrap_recv-closed rs bytes len n a lt =
    recv_short (rs ++ closed n) [] bytes len (Arrives-closed rs bytes n a) (omega arith)

-- The outcomes of send that are no failure, and the count of the bytes that they wrote.
pub data Departs : List Sent → ℕ → Type 0 where
  done : Departs [] 0
  later : {rs : List Sent} → {n : ℕ} → Departs rs n → Departs (Sent.again ∷ rs) n
  part : {rs : List Sent} → {n : ℕ} → (k : ℕ) → Departs rs n → Departs (Sent.wrote k ∷ rs) (k + n)

send_rest :
    (rs : List Sent) (writen n len : ℕ)
    → Departs rs n
    → writen < len
    → writen + n ≡ len
    → wrap_send rs writen len ≡ some (some len)
unfolding wrap_send
send_rest rs writen n len done lt e = absurd (omega arith)
send_rest rs writen n len (later a) lt e = send_rest _ writen n len a lt e
send_rest rs writen n len (part {rs = rs'} {n = m} k a) lt e =
    elim (Bool-cases (writen + k == len)) [
      | inl all ↦ rw all (ap (λ l. some (some l)) (ground arith))
      | inr more ↦ rw more (send_rest rs' (writen + k) m len a (ground arith) (omega arith))
    ]

-- The outcomes of send, none of them a failure, write as many bytes as are asked for, and at least
-- one. Then `wrap_send` returns that count, however the bytes go out in parts.
pub wrap_send_lem :
    (rs : List Sent) (len : ℕ) → Departs rs len → 0 < len → wrap_send rs 0 len ≡ some (some len)
wrap_send_lem rs len a h = send_rest rs 0 len len a h (omega arith)
