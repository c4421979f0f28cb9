-- ===== src/Chat/Confirm/Examples.antt =====
-- The theorems about confirmations applied to concrete calls.
use octomus_agent.Base.{
  ℕ, ◌+◌, ◌≤◌, false, [], ◌∷◌, codes, ◌≡◌, ◌≢◌, refl, List, Any, length, Text-discrete, ℕ_discrete,
}
use octomus_agent.Chat.Confirm.{
  find, delete, purge, put, confirm, take_pending, handle_click, expired, runs, max_pending,
  pending_ttl,
}
use octomus_agent.Chat.Confirm.Once.{Event, asked, run, handle_click-once}
use octomus_agent.Chat.Confirm.Asked.{handle_click-asked, run-max_pending}

-- A retry, as action number 7, is asked for under one token.
abbrev events : List (Event ℕ)
events = asked 10 (codes "token") (codes "owner") 7 ∷ []

click_runs : (handle_click 20 false (codes "token") (codes "owner") (run events [])).0 ≡ runs 7
unfolding handle_click take_pending find delete confirm purge put Text-discrete ℕ_discrete
click_runs = refl

run_click : (handle_click 20 false (codes "token") (codes "owner") (run events [])).0 ≢ expired
run_click h = absurd (cc click_runs)

handle_click-once_example :
    (handle_click 30 false
      (codes "token")
      (codes "owner")
      (run [] (handle_click 20 false (codes "token") (codes "owner") (run events [])).1)).0
    ≡ expired
handle_click-once_example =
    handle_click-once 20 30 false false (codes "token") (codes "owner") (codes "owner")
      (run events []) [] run_click tt

handle_click-asked_example :
    (at : ℕ) × Any (λ e. e ≡ asked at (codes "token") (codes "owner") 7) events
    × (20 ≤ at + pending_ttl)
handle_click-asked_example =
    handle_click-asked events 20 (codes "token") (codes "owner") 7 click_runs

run-max_pending_example : length (run events []) ≤ max_pending
run-max_pending_example = run-max_pending events
