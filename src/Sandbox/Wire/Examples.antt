-- ===== src/Sandbox/Wire/Examples.antt =====
-- The theorems about the sandbox stream applied to concrete frames.
use octomus_agent.Base.{ℕ, [], ◌∷◌, ◌++◌, List, Bytes, ◌≡◌, ◌↔◌, some, arith}
use octomus_agent.Sandbox.Wire.{frame_of, read_frame, frame, write_data}
use octomus_agent.Sandbox.Wire.RoundTrip.{
  Reads, Chunks, payloads, read_frame-frame, write_data-Reads,
}

abbrev stream : Bytes
stream = 3 ∷ 0 ∷ 0 ∷ 0 ∷ 2 ∷ 104 ∷ 105 ∷ 9 ∷ []

read_frame-frame_example : (read_frame stream ≡ frame_of 3 (104 ∷ 105 ∷ []) (9 ∷ [])) ↔ (
    (written : Bytes) × (frame 3 (104 ∷ 105 ∷ []) ≡ some written) × (stream ≡ written ++ (9 ∷ [])))
read_frame-frame_example = read_frame-frame stream 3 (104 ∷ 105 ∷ []) (9 ∷ []) (omega arith)

write_data-Reads_example :
    ((write_data 1 (104 ∷ 105 ∷ [])).1 ≡ 2)
    × ((frames : List (ℕ × Bytes)) × Reads
          ((write_data 1 (104 ∷ 105 ∷ [])).0 ++ (9 ∷ []))
          frames
          (9 ∷ [])
        × Chunks 1 frames
        × (payloads frames ≡ 104 ∷ 105 ∷ []))
write_data-Reads_example = write_data-Reads 1 (104 ∷ 105 ∷ []) (9 ∷ [])
