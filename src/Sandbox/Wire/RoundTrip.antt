-- ===== src/Sandbox/Wire/RoundTrip.antt =====
-- What the sandbox stream's reader and writer say to one another (internal/sandbox/wire/wire.go).
use octomus_agent.Base.{
  ℕ, zero, suc, ◌+◌, ◌≤◌, ◌<◌, List, [], ◌∷◌, ◌++◌, some, min, length, Bytes, IsBytes, split_at,
  split_at-length, split_at_inversion, split_at_total, put_u32, u32, length-append, ◌≡◌, ◌↔◌, refl,
  sym, ap, subst, ◌∙◌, inl, inr, arith, Option-cases,
}
use mathlib.Core.List.{append_assoc}
use Prim.Native.Nat.{◌/◌, ◌%◌}
use octomus_agent.Sandbox.Wire.{
  frame_of, read_frame, read_payload, frame, max_frame, data_chunk, chunk_of, with_frame, data_from,
  write_data,
}

read_payload_inversion :
    (kind size : ℕ) (input payload rest : Bytes) (k : ℕ)
    → read_payload kind size input ≡ frame_of k payload rest
    → (kind ≡ k) × (input ≡ payload ++ rest) × (length payload ≡ size) × (size ≤ max_frame)
unfolding read_payload
read_payload_inversion kind size input payload rest k h =
    elim (Option-cases (split_at size input)) [
      | inl e ↦ absurd (ground arith)
      | inr ((p, r), e) ↦
          let (joined, sized) = split_at_inversion size input p r e in
          (ground arith, ground arith, ground arith, ground arith)
    ]

payload-read :
    (kind : ℕ) (payload rest : Bytes)
    → length payload ≤ max_frame
    → read_payload kind (length payload) (payload ++ rest) ≡ frame_of kind payload rest
unfolding read_payload
payload-read kind payload rest fits = let taken = split_at-length payload rest in ground arith

-- A size that is at most the limit survives its four bytes.
u32-put :
    (n : ℕ)
    → n ≤ max_frame
    → u32 (n / 16777216 % 256) (n / 65536 % 256) (n / 256 % 256) (n % 256) ≡ n
u32-put n fits = omega arith

put-u32 :
    (a b c d n : ℕ)
    → a < 256
    → b < 256
    → c < 256
    → d < 256
    → u32 a b c d ≡ n
    → (n / 16777216 % 256 ≡ a) × (n / 65536 % 256 ≡ b) × (n / 256 % 256 ≡ c) × (n % 256 ≡ d)
put-u32 a b c d n pa pb pc pd e = (omega arith, omega arith, omega arith, omega arith)

frame_inversion :
    (kind : ℕ) (payload written : Bytes)
    → frame kind payload ≡ some written
    → (length payload ≤ max_frame) × (written ≡ kind ∷ (put_u32 (length payload) ++ payload))
unfolding frame
frame_inversion kind payload written h = (ground arith, ground arith)

frame-fits :
    (kind : ℕ) (payload : Bytes)
    → length payload ≤ max_frame
    → frame kind payload ≡ some (kind ∷ (put_u32 (length payload) ++ payload))
unfolding frame
frame-fits kind payload fits = ground arith

frame-read :
    (kind : ℕ) (payload written rest : Bytes)
    → frame kind payload ≡ some written
    → read_frame (written ++ rest) ≡ frame_of kind payload rest
unfolding read_frame
frame-read kind payload written rest h =
    let (fits, shape) = frame_inversion kind payload written h in
    subst (λ w. read_frame (w ++ rest) ≡ frame_of kind payload rest) (sym shape)
      (subst (λ n. read_payload kind n (payload ++ rest) ≡ frame_of kind payload rest)
        (sym (u32-put (length payload) fits)) (payload-read kind payload rest fits))

read-frame :
    (input : Bytes) (kind : ℕ) (payload rest : Bytes)
    → IsBytes input
    → read_frame input ≡ frame_of kind payload rest
    → (written : Bytes) × (frame kind payload ≡ some written) × (input ≡ written ++ rest)
unfolding frame read_frame
read-frame (k ∷ a ∷ b ∷ c ∷ d ∷ input) kind payload rest (pk, (pa, (pb, (pc, (pd, bytes))))) h =
    let (same, joined, sized, fits) =
      read_payload_inversion k (u32 a b c d) input payload rest kind h in
    let (ea, eb, ec, ed) = put-u32 a b c d (length payload) pa pb pc pd (sym sized) in
    (kind ∷ (put_u32 (length payload) ++ payload), ground arith, cc)
read-frame _ kind payload rest bytes h = absurd (cc)

-- A frame that is written is read back whole, with what follows it untouched, and a frame that is read
-- from bytes is one that the writer would have written.
pub read_frame-frame :
    (input : Bytes) (kind : ℕ) (payload rest : Bytes)
    → IsBytes input
    → (read_frame input ≡ frame_of kind payload rest)
      ↔ ((written : Bytes) × (frame kind payload ≡ some written) × (input ≡ written ++ rest))
read_frame-frame input kind payload rest bytes = (
  read-frame input kind payload rest bytes,
  λ (written, h, e).
      subst (λ i. read_frame i ≡ frame_of kind payload rest) (sym e)
        (frame-read kind payload written rest h),
)

-- Frames that are read from a stream, one after the other, and what is left of it.
pub data Reads : Bytes → List (ℕ × Bytes) → Bytes → Type 0 where
  no_frame : {rest : Bytes} → Reads rest [] rest
  next_frame :
      {input payload next rest : Bytes} {kind : ℕ} {frames : List (ℕ × Bytes)}
      → read_frame input ≡ frame_of kind payload next
      → Reads next frames rest
      → Reads input ((kind, payload) ∷ frames) rest

abbrev pub payloads : List (ℕ × Bytes) → Bytes
payloads [] = []
payloads ((kind, payload) ∷ frames) = payload ++ payloads frames

-- Frames of one kind, none empty and none above the size of a chunk.
abbrev pub Chunks : ℕ → List (ℕ × Bytes) → Type 0
Chunks kind [] = Unit {0}
Chunks kind ((k, payload) ∷ frames) =
    (k ≡ kind) × (0 < length payload) × (length payload ≤ data_chunk) × Chunks kind frames

-- One round of the loop writes the frame of a chunk and goes on behind it.
round :
    (rounds kind : ℕ) (x : ℕ) (p : Bytes)
    → (chunk : Bytes) × (rest : Bytes) × (written : Bytes) × (x ∷ p ≡ chunk ++ rest)
      × (0 < length chunk)
      × (length chunk ≤ data_chunk)
      × (frame kind chunk ≡ some written)
      × (data_from (suc rounds) kind (x ∷ p) ≡ (
        written ++ (data_from rounds kind rest).0,
        length chunk + (data_from rounds kind rest).1,
      ))
unfolding data_from
round rounds kind x p =
    let n = min (length (x ∷ p)) data_chunk in
    let (chunk, rest, e) = split_at_total n (x ∷ p) (omega arith) in
    let (joined, sized) = split_at_inversion n (x ∷ p) chunk rest e in
    let fits : length chunk ≤ data_chunk = omega arith in
    let framed = frame-fits kind chunk (omega arith) in
    let w = kind ∷ (put_u32 (length chunk) ++ chunk) in
    (
      chunk,
      rest,
      w,
      joined,
      omega arith,
      fits,
      framed,
      subst
          (λ o.
            with_frame (frame kind (chunk_of o (x ∷ p)).0) n
              (data_from rounds kind (chunk_of o (x ∷ p)).1)
            ≡ (w ++ (data_from rounds kind rest).0, length chunk + (data_from rounds kind rest).1))
          (sym e)
          (subst
            (λ f. with_frame f n (data_from rounds kind rest) ≡ (
              w ++ (data_from rounds kind rest).0,
              length chunk + (data_from rounds kind rest).1,
            ))
            (sym framed)
            (ap (λ k. (w ++ (data_from rounds kind rest).0, k + (data_from rounds kind rest).1))
              (sym sized))),
    )

data_from-Reads :
    (rounds kind : ℕ) (p rest : Bytes)
    → length p ≤ rounds
    → ((data_from rounds kind p).1 ≡ length p)
      × ((frames : List (ℕ × Bytes)) × Reads ((data_from rounds kind p).0 ++ rest) frames rest
          × Chunks kind frames
          × (payloads frames ≡ p))
unfolding data_from
data_from-Reads rounds kind [] rest enough = (refl, ([], no_frame, tt, refl))
data_from-Reads zero kind (x ∷ p) rest enough = absurd (omega arith)
data_from-Reads (suc rounds) kind (x ∷ p) rest enough =
    let (chunk, later, w, joined, filled, fits, framed, e) = round rounds kind x p in
    let sizes = ap (λ l. length l) joined ∙ length-append chunk later in
    let (count, (frames, reads, chunks, whole)) =
      data_from-Reads rounds kind later rest (omega arith) in
    let written = ap (λ r. r.0) e in
    let counted = ap (λ r. r.1) e in
    let first = frame-read kind chunk w ((data_from rounds kind later).0 ++ rest) framed in
    let stream =
      ap (λ b. b ++ rest) written ∙ append_assoc w (data_from rounds kind later).0 rest in
    (
      counted ∙ omega arith,
      (
        (kind, chunk) ∷ frames,
        subst (λ input. Reads input ((kind, chunk) ∷ frames) rest) (sym stream)
            (next_frame first reads),
        (refl, filled, fits, chunks),
        ap (λ b. chunk ++ b) whole ∙ sym joined,
      ),
    )

-- A payload of any size is written whole: the count says so, and the stream reads back as frames of
-- that kind, none empty or larger than a chunk, whose payloads are the written bytes in their order.
pub write_data-Reads :
    (kind : ℕ) (p rest : Bytes)
    → ((write_data kind p).1 ≡ length p)
      × ((frames : List (ℕ × Bytes)) × Reads ((write_data kind p).0 ++ rest) frames rest
          × Chunks kind frames
          × (payloads frames ≡ p))
unfolding write_data
write_data-Reads kind p rest = data_from-Reads (length p) kind p rest (omega arith)
