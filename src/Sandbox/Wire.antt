-- ===== src/Sandbox/Wire.antt =====
-- internal/sandbox/wire/wire.go: the framed stream between the control plane and the broker, and
-- the names that both sides accept. A stream is the bytes that are still to come, then its end; a
-- write succeeds and appends. The lower case of a text and netip's recognition of an address are
-- parameters.
use octomus_agent.Base.{
  ℕ, zero, suc, ◌+◌, Bool, true, false, not, ◌&&◌, ◌||◌, List, [], ◌∷◌, ◌++◌, Option, none, some,
  if◌then◌else◌, ltb, leb, min, length, Bytes, split_at, put_u32, u32, Text, text_eq, nat_eq, ◌==◌,
  last?,
}
pub mod Hosts
mod RoundTrip
mod Examples

pub data ReadError : Type 0 where
  eof unexpected_eof frame_too_large : ReadError

-- A frame and the stream after it, or an error.
pub data Read : Type 0 where
  frame_of : ℕ → Bytes → Bytes → Read
  failed : ReadError → Read

abbrev pub max_frame : ℕ
max_frame = 1048576

abbrev pub data_chunk : ℕ
data_chunk = 32768

abbrev pub payload_of : ℕ → Option (Bytes × Bytes) → Read
payload_of kind none = failed unexpected_eof
payload_of kind (some (payload, rest)) = frame_of kind payload rest

-- The reading of the payload once the header is read.
unfoldable pub read_payload : ℕ → ℕ → Bytes → Read
unfolding split_at
read_payload kind size rest =
    if ltb max_frame size then failed frame_too_large else payload_of kind (split_at size rest)

-- io.ReadFull of the header gives io.EOF on an empty stream, io.ErrUnexpectedEOF on a shorter one.
unfoldable pub read_frame : Bytes → Read
unfolding read_payload
read_frame [] = failed eof
read_frame (kind ∷ a ∷ b ∷ c ∷ d ∷ rest) = read_payload kind (u32 a b c d) rest
read_frame _ = failed unexpected_eof

-- The bytes that FrameWriter.Frame writes; `none` where the payload is too large.
unfoldable pub frame : ℕ → Bytes → Option Bytes
frame kind payload =
    if ltb max_frame (length payload)
    then none
    else some (kind ∷ (put_u32 (length payload) ++ payload))

abbrev pub chunk_of : Option (Bytes × Bytes) → Bytes → Bytes × Bytes
chunk_of none p = (p, [])
chunk_of (some parts) p = parts

-- What is written, and the number of payload bytes of it.
abbrev pub with_frame : Option Bytes → ℕ → Bytes × ℕ → Bytes × ℕ
with_frame none n rest = ([], 0)
with_frame (some w) n rest = (w ++ rest.0, n + rest.1)

-- The loop of FrameWriter.Data, with a bound on its rounds.
unfoldable pub data_from : ℕ → ℕ → Bytes → Bytes × ℕ
unfolding split_at frame
data_from rounds kind [] = ([], 0)
data_from zero kind (x ∷ p) = ([], 0)
data_from (suc rounds) kind (x ∷ p) =
    let n = min (length (x ∷ p)) data_chunk in
    let (chunk, rest) = chunk_of (split_at n (x ∷ p)) (x ∷ p) in
    with_frame (frame kind chunk) n (data_from rounds kind rest)

unfoldable pub write_data : ℕ → Bytes → Bytes × ℕ
unfolding data_from
write_data kind p = data_from (length p) kind p

abbrev pub is_alphanumeric : ℕ → Bool
is_alphanumeric c = (leb b'a' c && leb c b'z') || (leb b'0' c && leb c b'9')

abbrev pub all_label : Text → Bool
all_label [] = true
all_label (c ∷ s) = (is_alphanumeric c || c == b'-') && all_label s

abbrev pub ends_well : Option ℕ → Bool
ends_well none = false
ends_well (some c) = is_alphanumeric c

abbrev pub first? : Text → Option ℕ
first? [] = none
first? (c ∷ s) = some c

-- The language of hostLabel: at most 63 letters, digits and dashes, with no dash at either end.
unfoldable pub valid_label : Text → Bool
valid_label label =
    all_label label && leb (length label) 63 && ends_well (first? label) && ends_well (last? label)
