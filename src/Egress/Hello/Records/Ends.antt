-- ===== src/Egress/Hello/Records/Ends.antt =====
-- The bounds of the loops of readClientHello and checkClientHello
-- (internal/egress/clienthello.go).
use octomus_agent.Base.{
  ℕ, zero, suc, ◌+◌, ◌-◌, ◌≤◌, ◌<◌, Bool, true, false, List, [], ◌∷◌, ◌++◌, Option, none, some, leb,
  length, Bytes, split_at, split_at_inversion, split_at_total, length-append, u16, Text, text_eq,
  nat_eq, option_eq, ◌==◌, ◌≡◌, ◌≢◌, refl, sym, ap, ◌∙◌, inl, inr, arith, Bool-cases, Option-cases,
}
use octomus_agent.Sandbox.Wire.Hosts.{Host, normalize_host}
use octomus_agent.Egress.Hello.{
  HelloError, unfinished, one_byte, two_bytes, tls_vector, and_vector, mismatch, check_name,
  check_names, check_server_name, check_kind, check_extensions, check_last, check_compression,
  check_ciphers, check_session, check_version, check_client_hello,
}
use octomus_agent.Egress.Hello.Records.{
  HelloRead, refused, u24, and_want, and_payload, body_of, read_record, check_found, check_message,
  read_records, read_client_hello, short_read,
}

abbrev Finishes : Option HelloError → Type 0
Finishes o = o ≢ some unfinished

and_vector-Finishes :
    (o : Option (Bytes × Bytes)) (next : Bytes → Bytes → Option HelloError)
    → ((v r : Bytes) → o ≡ some (v, r) → Finishes (next v r))
    → Finishes (and_vector o next)
and_vector-Finishes none next each h = absurd (cc)
and_vector-Finishes (some (v, r)) next each h = each v r refl h

Ends : HelloRead → Type 0
Ends r = r ≢ refused unfinished

and_want-Ends :
    (message : Bytes) (want : ℕ) (next : ℕ → HelloRead)
    → 4 ≤ want
    → ((now : ℕ) → 4 ≤ now → Ends (next now))
    → Ends (and_want message want next)
unfolding Ends
and_want-Ends [] want next low each = each want low
and_want-Ends (t ∷ []) want next low each = each want low
and_want-Ends (t ∷ a ∷ []) want next low each = each want low
and_want-Ends (t ∷ a ∷ b ∷ []) want next low each = each want low
and_want-Ends (t ∷ a ∷ b ∷ c ∷ message) want next low each =
    let later = each (4 + u24 a b c) (omega arith) in λ h. later (ground arith)

short_read-Ends : (input : Bytes) → Ends (refused (short_read input))
unfolding Ends
short_read-Ends [] h = absurd (cc)
short_read-Ends (a ∷ input) h = absurd (cc)

and_payload-Ends :
    (input : Bytes) (o : Option (Bytes × Bytes)) (next : Bytes → Bytes → HelloRead)
    → ((v r : Bytes) → o ≡ some (v, r) → Ends (next v r))
    → Ends (and_payload input o next)
unfolding Ends
and_payload-Ends input none next each = short_read-Ends input
and_payload-Ends input (some (v, r)) next each = each v r refl

read_record-Ends :
    (go : ℕ → Bytes → Bytes → Bytes → HelloRead) (want : ℕ) (records message input : Bytes)
    → 4 ≤ want
    → ((now : ℕ) (out joined after : Bytes)
        → 4 ≤ now
        → length after < length input
        → Ends (go now out joined after))
    → Ends (read_record go want records message input)
unfolding read_record Ends
read_record-Ends go want records message (k ∷ v ∷ m ∷ a ∷ b ∷ input) low each = λ h.
    and_payload-Ends input (split_at (u16 a b) input)
      (λ payload after.
        and_want (message ++ payload) want
          (λ next. go next (records ++ (k ∷ v ∷ m ∷ a ∷ b ∷ payload)) (message ++ payload) after))
      (λ payload after e.
        let (joined, sized) = split_at_inversion (u16 a b) input payload after e in
        let size = ap (λ l. length l) joined ∙ length-append payload after in
        and_want-Ends (message ++ payload) want _ low
          (λ now high. each now _ _ after high (omega arith)))
      (ground arith)
read_record-Ends go want records message [] low each = short_read-Ends []
read_record-Ends go want records message (k ∷ []) low each = short_read-Ends (k ∷ [])
read_record-Ends go want records message (k ∷ v ∷ []) low each = short_read-Ends (k ∷ v ∷ [])
read_record-Ends go want records message (k ∷ v ∷ m ∷ []) low each =
    short_read-Ends (k ∷ v ∷ m ∷ [])
read_record-Ends go want records message (k ∷ v ∷ m ∷ a ∷ []) low each =
    short_read-Ends (k ∷ v ∷ m ∷ a ∷ [])

module _ (lower : Text → Text) (is_address : Text → Bool) (host : Text) where
  mismatch-Finishes : (o : Host) → Finishes (mismatch host o)
  mismatch-Finishes _ h = absurd (ground arith)

  check_name-Finishes : (name rest : Bytes) → Finishes (check_name lower is_address host name rest)
  unfolding check_name
  check_name-Finishes name rest h =
      let later = mismatch-Finishes (normalize_host lower is_address name) in later (ground arith)

  check_names-Finishes :
      (names rest : Bytes) → Finishes (check_names lower is_address host names rest)
  unfolding check_names
  check_names-Finishes [] rest h = absurd (cc)
  check_names-Finishes (t ∷ names) rest h =
      and_vector-Finishes (tls_vector two_bytes names) (check_name lower is_address host)
        (λ v r e. check_name-Finishes v r) (ground arith)

  check_server_name-Finishes :
      (value : Bytes) → Finishes (check_server_name lower is_address host value)
  unfolding check_server_name
  check_server_name-Finishes value =
      and_vector-Finishes (tls_vector two_bytes value) (check_names lower is_address host)
        (λ v r e. check_names-Finishes v r)

  check_kind-Finishes :
      (kind : ℕ) (value : Bytes) (found : Bool) (next : Bool → Option HelloError)
      → ((b : Bool) → Finishes (next b))
      → Finishes (check_kind lower is_address host kind value found next)
  check_kind-Finishes kind value found next each h =
      let name = check_server_name-Finishes value in
      let named = each true in
      let other = each found in
      elim (Bool-cases (kind == 0)) [
        | inl e ↦ elim (Option-cases (check_server_name lower is_address host value)) [
          | inl f ↦ named (ground arith)
          | inr (x, f) ↦ name (ground arith)
        ]
        | inr e ↦ elim (Bool-cases (kind == 0xfe0d)) [
          | inl f ↦ absurd (ground arith)
          | inr f ↦ other (ground arith)
        ]
      ]

  check_extensions-Finishes :
      (rounds : ℕ) (seen : List ℕ) (found : Bool) (input : Bytes)
      → length input ≤ rounds
      → Finishes (check_extensions lower is_address host rounds seen found input)
  unfolding check_extensions
  check_extensions-Finishes rounds seen found [] enough h = absurd (ground arith)
  check_extensions-Finishes zero seen found (a ∷ input) enough h = absurd (omega arith)
  check_extensions-Finishes (suc rounds) seen found (a ∷ []) enough h = absurd (cc)
  check_extensions-Finishes (suc rounds) seen found (a ∷ b ∷ []) enough h = absurd (cc)
  check_extensions-Finishes (suc rounds) seen found (a ∷ b ∷ c ∷ []) enough h = absurd (cc)
  check_extensions-Finishes (suc rounds) seen found (a ∷ b ∷ c ∷ d ∷ input) enough q =
      and_vector-Finishes (tls_vector two_bytes (c ∷ d ∷ input)) _
        (λ value after e h.
          let (joined, sized) = split_at_inversion (u16 c d) input value after e in
          let size = ap (λ l. length l) joined ∙ length-append value after in
          check_kind-Finishes (u16 a b) value found
            (λ now. check_extensions lower is_address host rounds (u16 a b ∷ seen) now after)
            (λ now. check_extensions-Finishes rounds (u16 a b ∷ seen) now after (omega arith))
            (ground arith))
        q

  check_last-Finishes :
      (extensions rest : Bytes) → Finishes (check_last lower is_address host extensions rest)
  unfolding check_last
  check_last-Finishes extensions rest h =
      let all = check_extensions-Finishes (length extensions) [] false extensions (omega arith) in
      all (ground arith)

  check_compression-Finishes :
      (compression rest : Bytes)
      → Finishes (check_compression lower is_address host compression rest)
  unfolding check_compression
  check_compression-Finishes compression rest h =
      and_vector-Finishes (tls_vector two_bytes rest) (check_last lower is_address host)
        (λ v r e. check_last-Finishes v r) (ground arith)

  check_ciphers-Finishes :
      (ciphers rest : Bytes) → Finishes (check_ciphers lower is_address host ciphers rest)
  unfolding check_ciphers
  check_ciphers-Finishes ciphers rest h =
      and_vector-Finishes (tls_vector one_byte rest) (check_compression lower is_address host)
        (λ v r e. check_compression-Finishes v r) (ground arith)

  check_session-Finishes :
      (session rest : Bytes) → Finishes (check_session lower is_address host session rest)
  unfolding check_session
  check_session-Finishes session rest h =
      and_vector-Finishes (tls_vector two_bytes rest) (check_ciphers lower is_address host)
        (λ v r e. check_ciphers-Finishes v r) (ground arith)

  check_version-Finishes :
      (head rest : Bytes) → Finishes (check_version lower is_address host head rest)
  unfolding check_version
  check_version-Finishes head rest h =
      and_vector-Finishes (tls_vector one_byte rest) (check_session lower is_address host)
        (λ v r e. check_session-Finishes v r) (ground arith)

  check_client_hello-Finishes :
      (body : Bytes) → Finishes (check_client_hello lower is_address host body)
  unfolding check_client_hello
  check_client_hello-Finishes body =
      and_vector-Finishes (split_at 34 body) (check_version lower is_address host)
        (λ v r e. check_version-Finishes v r)

  check_message-Finishes :
      (message : Bytes) (want : ℕ)
      → 4 ≤ want
      → want ≤ length message
      → Finishes (check_message lower is_address host message want)
  unfolding check_message
  check_message-Finishes message want low long h =
      let (start, rest, e) = split_at_total 4 message (omega arith) in
      let (joined, sized) = split_at_inversion 4 message start rest e in
      let size = ap (λ l. length l) joined ∙ length-append start rest in
      let (body, extra, f) = split_at_total (want - 4) rest (omega arith) in
      check_client_hello-Finishes body
        (sym (ap (λ o. check_found lower is_address host o) (ap (λ o. body_of want o) e ∙ f)) ∙ h)

  read_records-Ends :
      (rounds want : ℕ) (records message input : Bytes)
      → 4 ≤ want
      → length input < rounds
      → Ends (read_records lower is_address host rounds want records message input)
  unfolding read_records Ends
  read_records-Ends zero want records message input low enough = absurd (omega arith)
  read_records-Ends (suc rounds) want records message input low enough = λ h.
      elim (Bool-cases (leb want (length message))) [
        | inl e ↦
            let ends = check_message-Finishes message want low (ground arith) in
            elim (Option-cases (check_message lower is_address host message want)) [
              | inl f ↦ absurd (ground arith)
              | inr (x, f) ↦ ends (ground arith)
            ]
        | inr e ↦
            read_record-Ends (read_records lower is_address host rounds) want records message input
              low
              (λ now out joined after high less.
                read_records-Ends rounds now out joined after high (omega arith))
              (ground arith)
      ]

  -- The bounds on the rounds are never reached: every inspection ends with its own answer, on any
  -- bytes however they are cut into records.
  pub read_client_hello-finishes :
      (input : Bytes) → read_client_hello lower is_address host input ≢ refused unfinished
  unfolding read_client_hello Ends
  read_client_hello-finishes input =
      read_records-Ends (suc (length input)) 4 [] [] input (omega arith) (omega arith)
