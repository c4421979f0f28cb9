-- ===== src/Egress/Hello/Records/Inspected.antt =====
-- What the gateway has read once it lets a ClientHello through (internal/egress/clienthello.go).
use octomus_agent.Base.{
  ℕ, zero, suc, ◌+◌, ◌-◌, ◌≤◌, ◌<◌, Bool, [], ◌∷◌, ◌++◌, Option, none, some, leb, length, Bytes,
  IsBytes, IsBytes-append, append-IsBytes, split_at, split_at_inversion, length-append, u16, Text,
  text_eq, nat_eq, ◌≡◌, refl, sym, ap, subst, ◌∙◌, inl, inr, arith, Bool-cases,
}
use mathlib.Core.List.{append_assoc}
use octomus_agent.Egress.Hello.{HelloError, check_client_hello}
use octomus_agent.Egress.Hello.Body.{Named, check_client_hello-Named}
use octomus_agent.Egress.Hello.Records.{
  HelloRead, records_of, u24, and_want, and_payload, verdict, read_record, check_found,
  check_message, read_records, read_client_hello, max_client_hello_wire, max_tls_plaintext,
}
use octomus_agent.Egress.Hello.Records.Framing.{
  no_record, then_record, IsRecords, Wanted, Wanted-short, and_want_inversion,
  and_payload_inversion,
}

-- What the loop holds of the records and the message so far.
pub record Holds (start : Bytes) (want : ℕ) (records message input : Bytes) : Type 0 where
  framed : IsRecords records message
  wanted : Wanted message want
  bounded : length records ≤ max_client_hello_wire
  kept : start ≡ records ++ input
  message_bytes : IsBytes message
  input_bytes : IsBytes input

-- What the tests of a record's header let through.
header_inversion :
    (go : ℕ → Bytes → Bytes → Bytes → HelloRead) (want : ℕ) (records message : Bytes)
    (k v m a b : ℕ) (input out rest : Bytes)
    → read_record go want records message (k ∷ v ∷ m ∷ a ∷ b ∷ input) ≡ records_of out rest
    → (k ≡ 22)
      × (v ≡ 3)
      × (1 ≤ m)
      × (m ≤ 3)
      × (0 < u16 a b)
      × (u16 a b ≤ max_tls_plaintext)
      × (length records + 5 + u16 a b ≤ max_client_hello_wire)
      × (and_payload input (split_at (u16 a b) input) (λ payload after.
            and_want (message ++ payload) want (λ next.
              go next (records ++ (k ∷ v ∷ m ∷ a ∷ b ∷ payload)) (message ++ payload) after))
          ≡ records_of out rest)
unfolding read_record
header_inversion go want records message k v m a b input out rest h = (
  ground arith,
  ground arith,
  ground arith,
  ground arith,
  ground arith,
  ground arith,
  ground arith,
  ground arith,
)

-- What a round leaves.
record Next (start : Bytes) (go : ℕ → Bytes → Bytes → Bytes → HelloRead) (out rest : Bytes)
    : Type 0 where
  want : ℕ
  records : Bytes
  message : Bytes
  input : Bytes
  holds : Holds start want records message input
  goes : go want records message input ≡ records_of out rest

read_record-Next :
    (start : Bytes) (go : ℕ → Bytes → Bytes → Bytes → HelloRead) (want : ℕ)
    (records message input out rest : Bytes)
    → Holds start want records message input
    → read_record go want records message input ≡ records_of out rest
    → Next start go out rest
read_record-Next start go want records message (k ∷ v ∷ m ∷ a ∷ b ∷ input) out rest s h =
    let n = u16 a b in
    let (ek, ev, low, high, some_byte, few, room, read) =
      header_inversion go want records message k v m a b input out rest h in
    let (payload, after, found, more) =
      and_payload_inversion input (split_at n input) _ out rest read in
    let (joined, sized) = split_at_inversion n input payload after found in
    let (now, wanted, went) =
      and_want_inversion (message ++ payload) want _ out rest
        (Wanted-short message payload want s.wanted) more in
    let (_, (_, (_, (_, (_, bytes))))) = s.input_bytes in
    let (payload_bytes, after_bytes) =
      IsBytes-append payload after (subst (λ i. IsBytes i) joined bytes) in
    let record_bytes = k ∷ v ∷ m ∷ a ∷ b ∷ payload in
    record {
      want = now;
      records = records ++ record_bytes;
      message = message ++ payload;
      input = after;
      holds = record {
        framed =
            then_record m a b payload s.framed (low, high) sized (omega arith, omega arith)
              (ap (λ x. records ++ x) (cc)) refl;
        wanted = wanted;
        bounded = let size = length-append records record_bytes in omega arith;
        kept =
            s.kept
            ∙ ap (λ i. records ++ (k ∷ v ∷ m ∷ a ∷ b ∷ i)) joined
            ∙ sym (append_assoc records record_bytes after);
        message_bytes = append-IsBytes message payload s.message_bytes payload_bytes;
        input_bytes = after_bytes;
      };
      goes = went;
    }
read_record-Next start go want records message _ out rest s h = unfold read_record in absurd (cc)

-- What the gateway forwards once it lets a hello through: whole records that carry one ClientHello,
-- whose body names the host.
pub record Inspection (lower : Text → Text) (is_address : Text → Bool) (host records : Bytes)
    : Type 0 where
  pub message : Bytes
  pub body : Bytes
  pub extra : Bytes
  pub high : ℕ
  pub middle : ℕ
  pub low : ℕ
  pub framed : IsRecords records message
  pub layout : message ≡ 1 ∷ high ∷ middle ∷ low ∷ (body ++ extra)
  pub size : length body ≡ u24 high middle low
  pub named : Named lower is_address host body

module _ (lower : Text → Text) (is_address : Text → Bool) (host : Text) where
  check_found_inversion :
      (o : Option (Bytes × Bytes))
      → check_found lower is_address host o ≡ none
      → (body : Bytes) × (extra : Bytes) × (o ≡ some (body, extra))
        × (check_client_hello lower is_address host body ≡ none)
  check_found_inversion none h = absurd (cc)
  check_found_inversion (some (body, extra)) h = (body, extra, refl, h)

  check_message-Inspection :
      (records message : Bytes) (want : ℕ)
      → IsRecords records message
      → Wanted message want
      → IsBytes message
      → want ≤ length message
      → check_message lower is_address host message want ≡ none
      → Inspection lower is_address host records
  unfolding check_message split_at
  check_message-Inspection records (t ∷ a ∷ b ∷ c ∷ message) want framed (is_hello, size)
        (_, (_, (_, (_, bytes)))) long h =
      let (body, extra, found, ok) = check_found_inversion _ h in
      let (joined, sized) = split_at_inversion (want - 4) message body extra found in
      let (body_bytes, _) = IsBytes-append body extra (subst (λ i. IsBytes i) joined bytes) in
      record {
        message = t ∷ a ∷ b ∷ c ∷ message;
        body = body;
        extra = extra;
        high = a;
        middle = b;
        low = c;
        framed = framed;
        layout = ap (λ x. x ∷ a ∷ b ∷ c ∷ message) is_hello ∙ ap (λ m. 1 ∷ a ∷ b ∷ c ∷ m) joined;
        size = sized ∙ omega arith;
        named = check_client_hello-Named lower is_address host body body_bytes ok;
      }
  check_message-Inspection records [] want framed w bytes long h = absurd (omega arith)
  check_message-Inspection records (t ∷ []) want framed w bytes long h = absurd (omega arith)
  check_message-Inspection records (t ∷ a ∷ []) want framed w bytes long h = absurd (omega arith)
  check_message-Inspection records (t ∷ a ∷ b ∷ []) want framed w bytes long h =
      absurd (omega arith)

  verdict_inversion :
      (records input out rest : Bytes) (o : Option HelloError)
      → verdict records input o ≡ records_of out rest
      → (o ≡ none) × (records ≡ out) × (input ≡ rest)
  verdict_inversion records input out rest none h = (refl, ground arith, ground arith)
  verdict_inversion records input out rest (some e) h = absurd (cc)

  abbrev Accepts : Bytes → Bytes → Bytes → Type 0
  Accepts start out rest =
      (start ≡ out ++ rest)
      × (length out ≤ max_client_hello_wire)
      × Inspection lower is_address host out

  read_records-Accepts :
      (rounds : ℕ) (start : Bytes) (want : ℕ) (records message input out rest : Bytes)
      → Holds start want records message input
      → read_records lower is_address host rounds want records message input ≡ records_of out rest
      → Accepts start out rest
  unfolding read_records
  read_records-Accepts zero start want records message input out rest s h = absurd (cc)
  read_records-Accepts (suc rounds) start want records message input out rest s h =
      elim (Bool-cases (leb want (length message))) [
        | inl e ↦
            let (ok, same, left) =
              verdict_inversion records input out rest
                (check_message lower is_address host message want) (ground arith) in
            let seen =
              check_message-Inspection records message want s.framed s.wanted s.message_bytes
                (ground arith) ok in
            (
              s.kept ∙ ap (λ r. r ++ input) same ∙ ap (λ i. out ++ i) left,
              subst (λ r. length r ≤ max_client_hello_wire) same s.bounded,
              subst (λ r. Inspection lower is_address host r) same seen,
            )
        | inr e ↦
            let next =
              read_record-Next start (read_records lower is_address host rounds) want records
                message input out rest s (ground arith) in
            read_records-Accepts rounds start next.want next.records next.message next.input out
              rest next.holds next.goes
      ]

  -- When the gateway lets a connection through, the bytes that it forwards are exactly those that it has
  -- read and at most 131072, and they are whole TLS handshake records that carry a ClientHello naming
  -- the host; the bytes after them are untouched.
  pub read_client_hello-Inspection :
      (input records rest : Bytes)
      → IsBytes input
      → read_client_hello lower is_address host input ≡ records_of records rest
      → (input ≡ records ++ rest)
        × (length records ≤ max_client_hello_wire)
        × Inspection lower is_address host records
  unfolding read_client_hello
  read_client_hello-Inspection input records rest bytes h =
      read_records-Accepts (suc (length input)) input 4 [] [] input records rest
        (record {
          framed = no_record;
          wanted = refl;
          bounded = omega arith;
          kept = refl;
          message_bytes = tt;
          input_bytes = bytes;
        })
        h
