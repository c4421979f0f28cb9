-- ===== src/Egress/Hello/Records/Framing.antt =====
-- How records frame the bytes of a handshake message (internal/egress/clienthello.go).
use octomus_agent.Base.{
  ℕ, ◌+◌, ◌≤◌, ◌<◌, [], ◌∷◌, ◌++◌, Option, none, some, length, Bytes, u16, text_eq, nat_eq, ◌≡◌,
  refl, arith,
}
use octomus_agent.Egress.Hello.Records.{
  HelloRead, records_of, u24, and_want, and_payload, max_tls_plaintext,
}

-- Handshake records of TLS, none empty or too long, and the message that they carry.
pub data IsRecords : Bytes → Bytes → Type 0 where
  no_record : IsRecords [] []
  then_record :
      {records message all joined : Bytes} (minor a b : ℕ) (payload : Bytes)
      → IsRecords records message
      → (1 ≤ minor) × (minor ≤ 3)
      → length payload ≡ u16 a b
      → (0 < length payload) × (length payload ≤ max_tls_plaintext)
      → all ≡ records ++ (22 ∷ 3 ∷ minor ∷ a ∷ b ∷ payload)
      → joined ≡ message ++ payload
      → IsRecords all joined

-- The wanted length: the header's, once it is there.
abbrev pub Wanted : Bytes → ℕ → Type 0
Wanted (t ∷ a ∷ b ∷ c ∷ message) want = (t ≡ 1) × (want ≡ 4 + u24 a b c)
Wanted _ want = want ≡ 4

pub Wanted-short :
    (before payload : Bytes) (want : ℕ)
    → Wanted before want
    → length (before ++ payload) < 4
    → want ≡ 4
Wanted-short [] payload want w h = w
Wanted-short (t ∷ []) payload want w h = w
Wanted-short (t ∷ a ∷ []) payload want w h = w
Wanted-short (t ∷ a ∷ b ∷ []) payload want w h = w
Wanted-short (t ∷ a ∷ b ∷ c ∷ before) payload want w h = absurd (omega arith)

pub and_want_inversion :
    (message : Bytes) (want : ℕ) (next : ℕ → HelloRead) (records rest : Bytes)
    → (length message < 4 → want ≡ 4)
    → and_want message want next ≡ records_of records rest
    → (now : ℕ) × Wanted message now × (next now ≡ records_of records rest)
and_want_inversion [] want next records rest w h = (want, w (omega arith), h)
and_want_inversion (t ∷ []) want next records rest w h = (want, w (omega arith), h)
and_want_inversion (t ∷ a ∷ []) want next records rest w h = (want, w (omega arith), h)
and_want_inversion (t ∷ a ∷ b ∷ []) want next records rest w h = (want, w (omega arith), h)
and_want_inversion (t ∷ a ∷ b ∷ c ∷ message) want next records rest w h =
    (4 + u24 a b c, (ground arith, refl), ground arith)

pub and_payload_inversion :
    (input : Bytes) (o : Option (Bytes × Bytes)) (next : Bytes → Bytes → HelloRead)
    (records rest : Bytes)
    → and_payload input o next ≡ records_of records rest
    → (payload : Bytes) × (after : Bytes) × (o ≡ some (payload, after))
      × (next payload after ≡ records_of records rest)
and_payload_inversion input none next records rest h = absurd (cc)
and_payload_inversion input (some (payload, after)) next records rest h = (payload, after, refl, h)
