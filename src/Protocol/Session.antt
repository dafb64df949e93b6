-- ===== src/Protocol/Session.antt =====
-- client/db_client.c, src/network/net.c: a command with two arguments, from the client to the call
-- on the server.
use dsm_db.Shared.{
  ℕ, zero, suc, ◌+◌, ◌-◌, ◌%◌, ◌^◌, ◌≤◌, ◌<◌, ◌≡◌, inl, inr, refl, sym, ap, ◌∙◌, subst, Bool, true,
  false, ◌==◌, some, List, [], ◌∷◌, ◌++◌, length, length-append, append_assoc, append_nil, take,
  drop, take_all, if◌then◌else◌, arith, ltb,
}
use dsm_db.Shared.Memory.{Bytes, load32}
use dsm_db.Protocol.{Spells, separate_sign, bytes32, store8, receive, skip_csbit, is_content_up}
use dsm_db.Protocol.Spells.{
  Spells-at, Spells-left, Spells-right, Spells-receive, Spells-behind, Spells-store8, Spells-append,
  load32-Spells,
}
use dsm_db.Protocol.Client.{message_of}
use dsm_db.Protocol.Values.{AllWord}
use dsm_db.Protocol.Server.{Request, Called, run, separator, simple_db_executer, executer, exec}
use dsm_db.Protocol.MsgType.{cmd, content, state}

-- The search for the separator passes the name of the table.
separator-name :
    (m : Bytes) (a n : ℕ) (name : List ℕ)
    → AllWord name
    → Spells m a (name ++ (separate_sign ∷ []))
    → length name < n
    → separator m a n ≡ some (a + length name, (n - length name - 1 + 65535) % 65536)
unfolding separator
separator-name m a zero name word s room = absurd (omega (arith, room))
separator-name m a (suc n) [] word s room =
    let here : (m a == separate_sign) ≡ true = ground (arith, s.0) in
    let e0 : a ≡ a + 0 = omega arith in
    let e1 : n ≡ suc n - 0 - 1 = omega arith in rw here (cc (e0, e1))
separator-name m a (suc n) (c ∷ name) word s room =
    let other : (m a == separate_sign) ≡ false = ground (arith, s.0, word.0) in
    let e0 : a + 1 + length name ≡ a + suc (length name) = omega arith in
    let e1 : n - length name - 1 ≡ suc n - suc (length name) - 1 = omega arith in
    rw other (
      separator-name m (a + 1) n name word.1
        (Spells-at m (suc a) (a + 1) (name ++ (separate_sign ∷ [])) (omega arith) s.1)
        (omega (arith, room))
      ∙ cc (e0, e1))

take_whole : (n : ℕ) (xs : List ℕ) → n ≡ length xs → take n xs ≡ xs
take_whole n xs e =
    ap (λ k. take k xs) e ∙ ap (take (length xs)) (sym (append_nil xs)) ∙ take_all xs []

abbrev pub content_of : List ℕ → List ℕ → List ℕ
content_of name data' = separate_sign ∷ name ++ (separate_sign ∷ data')

-- The memory of the server when the call is made.
abbrev pub seen : ℕ → List ℕ → List ℕ → Bytes → Bytes
seen number name data' buf =
    store8 (λ j. receive (bytes32 number ++ content_of name data') buf (5 + j)) (length name) 0

-- `exec`, step by step.
exec_steps :
    (f : ℕ) (closing : Bool) (message : List ℕ) (buf : Bytes) (v number : ℕ) (payload : List ℕ)
    (c : Called)
    → load32 (receive message buf) 0 ≡ v
    → take (v + 4) (drop 4 message) ≡ payload
    → length payload ≤ 512
    → load32 (receive payload buf) 0 ≡ number
    → executer f number (λ j. receive payload buf (5 + j)) v ≡ some c
    → exec f closing (cmd ∷ message) buf ≡ some (run c)
unfolding exec
exec_steps f closing message buf v number payload c e1 e2 fits e3 e4 =
    let fit : ltb 512 (length payload) ≡ false = ground (arith, fits) in
    rw (e1, e2) (rw fit (rw e3 (rw e4 refl)))

-- `executer`, step by step.
executer_steps :
    (f number : ℕ) (m : Bytes) (n i k : ℕ) (request : Request) (m' : Bytes)
    → separator m 0 n ≡ some (i, k)
    → simple_db_executer f (store8 m i 0) 0 (some (i + 1)) (skip_csbit number) k
      ≡ some (request, m')
    → executer f number m n
      ≡ some (record {
        request = request;
        reply_type = if is_content_up number then content else state;
        memory = m';
      })
unfolding executer
executer_steps f number m n i k request m' at call = rw (at, executer) (rw call refl)

module _ (number : ℕ) (name data' : List ℕ) (buf : Bytes) (word : AllWord name)
    (end : buf (length (bytes32 number ++ content_of name data')) ≡ 0) where
  content_parts :
      Spells (λ j. receive (bytes32 number ++ content_of name data') buf (5 + j)) 0 name
      × Spells
          (λ j. receive (bytes32 number ++ content_of name data') buf (5 + j))
          (0 + length name)
          ((separate_sign ∷ data') ++ (0 ∷ []))
  content_parts =
      let payload = bytes32 number ++ content_of name data' in
      let read : Bytes = λ j. receive payload buf (5 + j) in
      let behind = (separate_sign ∷ data') ++ (0 ∷ []) in
      let t : Spells (receive payload buf) 0 (payload ++ (0 ∷ [])) =
        Spells-receive payload buf 0 end in
      let there : Spells read 0 ((name ++ (separate_sign ∷ data')) ++ (0 ∷ [])) =
        Spells-behind (receive payload buf) 5 0 ((name ++ (separate_sign ∷ data')) ++ (0 ∷ []))
          t.1.1.1.1.1 in
      let all : Spells read 0 (name ++ behind) =
        subst (Spells read 0) (append_assoc name (separate_sign ∷ data') (0 ∷ [])) there in
      (Spells-left read 0 name behind all, Spells-right read 0 name behind all)

  pub seen-name : Spells (seen number name data' buf) 0 (name ++ (0 ∷ []))
  seen-name =
      let read : Bytes = λ j. receive (bytes32 number ++ content_of name data') buf (5 + j) in
      Spells-append (seen number name data' buf) 0 name (0 ∷ [])
        (Spells-store8 read (length name) 0 0 name (inr (omega arith)) content_parts.0)
        (ground arith, tt)

  pub seen-data : Spells (seen number name data' buf) (length name + 1) (data' ++ (0 ∷ []))
  seen-data =
      let read : Bytes = λ j. receive (bytes32 number ++ content_of name data') buf (5 + j) in
      Spells-store8 read (length name) 0 (length name + 1) (data' ++ (0 ∷ [])) (inl (omega arith)) (
        Spells-at read (suc (0 + length name)) (length name + 1) (data' ++ (0 ∷ [])) (omega arith)
          content_parts.1.1)

  -- The separator is found, and the call is made.
  executer_lem :
      (f : ℕ) (request : Request) (m' : Bytes)
      → length (content_of name data') ≤ 512
      → simple_db_executer f
          (seen number name data' buf)
          0
          (some (length name + 1))
          (skip_csbit number)
          (length data')
        ≡ some (request, m')
      → executer f number
          (λ j. receive (bytes32 number ++ content_of name data') buf (5 + j))
          (length (content_of name data'))
        ≡ some (record {
          request = request;
          reply_type = if is_content_up number then content else state;
          memory = m';
        })
  executer_lem f request m' fits call =
      let read : Bytes = λ j. receive (bytes32 number ++ content_of name data') buf (5 + j) in
      let n = length (content_of name data') in
      let long = length-append name (separate_sign ∷ data') in
      let there : Spells read 0 (name ++ (separate_sign ∷ [])) =
        Spells-append read 0 name (separate_sign ∷ []) content_parts.0 (content_parts.1.0, tt) in
      let at : separator read 0 n ≡ some (length name, length data') =
        separator-name read 0 n name word there (omega (arith, long))
        ∙ (let e0 : 0 + length name ≡ length name = omega arith in
            let e1 : (n - length name - 1 + 65535) % 65536 ≡ length data' =
              omega (arith, long, fits) in
            cc (e0, e1)) in
      executer_steps f number read n (length name) (length data') request m' at call

  -- The server makes the call of the command with the table and the data.
  pub exec_lem :
      (f : ℕ) (closing : Bool) (request : Request) (m' : Bytes)
      → number < 2 ^ 32
      → 4 + length (content_of name data') ≤ 512
      → simple_db_executer f
          (seen number name data' buf)
          0
          (some (length name + 1))
          (skip_csbit number)
          (length data')
        ≡ some (request, m')
      → exec f closing (message_of number (content_of name data')) buf
        ≡ some (
            run (record {
              request = request;
              reply_type = if is_content_up number then content else state;
              memory = m';
            }))
  exec_lem f closing request m' small fits call =
      let content' = content_of name data' in
      let payload = bytes32 number ++ content' in
      let message = bytes32 (length content') ++ payload in
      let long : load32 (receive message buf) 0 ≡ length content' =
        load32-Spells (receive message buf) 0 (length content') (omega (arith, fits)) (
          Spells-left (receive message buf) 0 (bytes32 (length content'))
            (payload ++ (buf (length message) ∷ []))
            (Spells-receive message buf (buf (length message)) refl)) in
      let numbered : load32 (receive payload buf) 0 ≡ number =
        load32-Spells (receive payload buf) 0 number small (
          Spells-left (receive payload buf) 0 (bytes32 number) (content' ++ (0 ∷ []))
            (Spells-receive payload buf 0 end)) in
      exec_steps f closing message buf (length content') number payload _ long
        (take_whole (length content' + 4) payload (omega arith)) (omega (arith, fits)) numbered
        (executer_lem f request m' (omega (arith, fits)) call)
