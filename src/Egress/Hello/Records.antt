-- ===== src/Egress/Hello/Records.antt =====
-- internal/egress/clienthello.go: readClientHello, which puts the first handshake message together
-- from TLS records. A connection is the bytes that are still to come, then its end; a read that
-- fails otherwise ends the inspection with that error.
use octomus_agent.Base.{
  ℕ, zero, suc, ◌+◌, ◌-◌, ◌*◌, Bool, true, false, not, ◌&&◌, ◌||◌, List, [], ◌∷◌, ◌++◌, Option,
  none, some, if◌then◌else◌, ltb, leb, length, Bytes, split_at, u16, Text, text_eq, nat_eq, ◌==◌,
  ◌!=◌,
}
use octomus_agent.Egress.Hello.{
  HelloError, hello_eof, hello_unexpected_eof, plaintext_required, not_client_hello,
  malformed_hello, large_hello, unfinished, check_client_hello,
}
mod Framing
pub mod Inspected
pub mod Ends

abbrev pub max_client_hello : ℕ
max_client_hello = 65536

abbrev pub max_client_hello_wire : ℕ
max_client_hello_wire = 131072

abbrev pub max_tls_plaintext : ℕ
max_tls_plaintext = 16384

-- The records read and the bytes after them, or a refusal.
pub data HelloRead : Type 0 where
  records_of : Bytes → Bytes → HelloRead
  refused : HelloError → HelloRead

-- io.ReadFull of a header gives io.EOF at the end of the connection, io.ErrUnexpectedEOF inside it.
abbrev pub short_read : Bytes → HelloError
short_read [] = hello_eof
short_read (_ ∷ _) = hello_unexpected_eof

abbrev pub u24 : ℕ → ℕ → ℕ → ℕ
u24 a b c = a * 65536 + b * 256 + c

-- The wanted length once four bytes of the message are known.
abbrev pub and_want : Bytes → ℕ → (ℕ → HelloRead) → HelloRead
and_want (t ∷ a ∷ b ∷ c ∷ message) want next =
    if t != 1
    then refused not_client_hello
    else if ltb 65532 (u24 a b c)
    then refused large_hello
    else next (4 + u24 a b c)
and_want _ want next = next want

-- The payload of a record is taken off the connection.
abbrev pub and_payload : Bytes → Option (Bytes × Bytes) → (Bytes → Bytes → HelloRead) → HelloRead
and_payload rest none next = refused (short_read rest)
and_payload rest (some (payload, after)) next = next payload after

abbrev pub body_of : ℕ → Option (Bytes × Bytes) → Option (Bytes × Bytes)
body_of want none = none
body_of want (some (start, rest)) = split_at (want - 4) rest

abbrev pub verdict : Bytes → Bytes → Option HelloError → HelloRead
verdict records input none = records_of records input
verdict records input (some e) = refused e

-- One round: a record is read and appended, and `go` goes on with the wanted length.
unfoldable pub read_record :
    (ℕ → Bytes → Bytes → Bytes → HelloRead) → ℕ → Bytes → Bytes → Bytes → HelloRead
unfolding split_at
read_record go want records message (k ∷ v ∷ m ∷ a ∷ b ∷ rest) =
    if k != 22 || v != 3 || ltb m 1 || ltb 3 m
    then refused plaintext_required
    else if u16 a b == 0 || ltb max_tls_plaintext (u16 a b)
    then refused malformed_hello
    else if ltb max_client_hello_wire (length records + 5 + u16 a b)
    then refused large_hello
    else and_payload rest (split_at (u16 a b) rest) (λ payload after.
      and_want (message ++ payload) want
        (λ next. go next (records ++ (k ∷ v ∷ m ∷ a ∷ b ∷ payload)) (message ++ payload) after))
read_record go want records message input = refused (short_read input)

module _ (lower : Text → Text) (is_address : Text → Bool) (host : Text) where
  abbrev pub check_found : Option (Bytes × Bytes) → Option HelloError
  check_found none = some unfinished
  check_found (some (body, rest)) = check_client_hello lower is_address host body

  -- The test of message[4:want], which the message reaches.
  unfoldable pub check_message : Bytes → ℕ → Option HelloError
  unfolding split_at
  check_message message want = check_found (body_of want (split_at 4 message))

  -- The loop, with a bound on its rounds.
  unfoldable pub read_records : ℕ → ℕ → Bytes → Bytes → Bytes → HelloRead
  unfolding check_message
  read_records zero want records message input = refused unfinished
  read_records (suc rounds) want records message input =
      let more = read_record (read_records rounds) want records message input in
      if leb want (length message) then verdict records input (check_message message want) else more

  unfoldable pub read_client_hello : Bytes → HelloRead
  unfolding read_records
  read_client_hello input = read_records (suc (length input)) 4 [] [] input
