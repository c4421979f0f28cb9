-- ===== src/Store/Merges/Authority.antt =====
-- What observations, claims, settlements and revocations do to a merge state
-- (internal/store/automerge.go).
use octomus_agent.Base.{
  Text, Bool, true, false, some, text_eq, ◌≡◌, ◌≢◌, ◌↔◌, arith, subst, ◌⊎◌, inl, inr, [], ◌==◌,
  ◌&&◌, codes, Bool-cases, ==→≡, ≡→==,
}
use octomus_agent.Model.Enums.{merged, closed, merging, uncertain}
use octomus_agent.Model.Types.{AutoMergeState}
use octomus_agent.Model.PullRequests.{PullRequest, PrObservation, pending}
use octomus_agent.Store.Merges.Observe.{observe, revoke, bound, same_delivery_head}
use octomus_agent.Store.Merges.Claim.{claimable, incomplete_intent}
use octomus_agent.Store.Merges.Settle.{
  Settlement, settle_current, settle_state, settleable, confirm_terminal, confirm, or_recorded,
}

-- One change that the store makes to the merge state of a pull request.
pub data MergeStep : AutoMergeState → AutoMergeState → Type 0 where
  observes : (m : AutoMergeState) (p : PullRequest) (now : Text) → MergeStep m (observe m p now)
  revokes : (m : AutoMergeState) (why now : Text) → MergeStep m (revoke m why now)
  claims :
      (m intent : AutoMergeState) (allow_manual : Bool)
      → incomplete_intent intent ≡ false
      → claimable m intent allow_manual ≡ true
      → MergeStep m intent
  settles :
      (m n : AutoMergeState) (o after : PrObservation) (s : Settlement)
      → settle_current o m s ≡ some after
      → after.auto_merge ≡ some n
      → MergeStep m n

pub data MergeReach (m : AutoMergeState) : AutoMergeState → Type 0 where
  here : MergeReach m m
  next : {n o : AutoMergeState} → MergeReach m n → MergeStep n o → MergeReach m o

-- The delivery that a merge state is about.
pub record SameSubject (m n : AutoMergeState) : Type 0 where
  pub task_id : n.task_id ≡ m.task_id
  pub head : n.head ≡ m.head
  pub comparison_base : n.comparison_base ≡ m.comparison_base
  pub head_branch : n.head_branch ≡ m.head_branch
  pub base_branch : n.base_branch ≡ m.base_branch
  pub policy_revision : n.policy_revision ≡ m.policy_revision

pub record Restrains (m n : AutoMergeState) : Type 0 where
  pub subject : SameSubject m n
  pub authority : n.authorized ≡ true → m.authorized ≡ true
  pub merged_stays : m.status ≡ merged → n.status ≡ merged
  pub closed_stays : m.status ≡ closed → n.status ≡ closed

Restrains-trans : (m n o : AutoMergeState) → Restrains m n → Restrains n o → Restrains m o
Restrains-trans m n o p q = record {
  subject = ground (arith, p.subject, q.subject);
  authority = λ h. p.authority (q.authority h);
  merged_stays = λ h. q.merged_stays (p.merged_stays h);
  closed_stays = λ h. q.closed_stays (p.closed_stays h);
}

observe-Restrains :
    (m : AutoMergeState) (p : PullRequest) (now : Text) → Restrains m (observe m p now)
unfolding observe pending
observe-Restrains m p now = ground arith

revoke-Restrains : (m : AutoMergeState) (why now : Text) → Restrains m (revoke m why now)
unfolding revoke
revoke-Restrains m why now = ground arith

claim-Restrains :
    (m intent : AutoMergeState) (allow_manual : Bool)
    → claimable m intent allow_manual ≡ true
    → Restrains m intent
unfolding claimable
claim-Restrains m intent allow_manual h = ground arith

settle_state-Restrains :
    (m : AutoMergeState) (s : Settlement) → settleable m ≡ true → Restrains m (settle_state m s)
unfolding settle_state settleable
settle_state-Restrains m s h = record {
  subject = ground arith;
  authority = λ e. ground arith;
  merged_stays = λ e. ground arith;
  closed_stays = λ e. ground arith;
}

confirm-Restrains : (m : AutoMergeState) (s : Settlement) → Restrains m (confirm m s)
unfolding confirm
confirm-Restrains m s = ground arith

confirm_terminal-Restrains :
    (m n : AutoMergeState) (s : Settlement) → confirm_terminal m s ≡ some n → Restrains m n
unfolding confirm_terminal
confirm_terminal-Restrains m n s h =
    let m' = record m { merge_commit = or_recorded s.commit m.merge_commit } in
    let same : confirm m' s ≡ n = ground arith in
    subst (λ x. Restrains m x) same
      (Restrains-trans m m' (confirm m' s) (ground arith) (confirm-Restrains m' s))

-- Either branch of a settlement that is not rolled back.
settle_current_inversion :
    (m n : AutoMergeState) (o after : PrObservation) (s : Settlement)
    → settle_current o m s ≡ some after
    → after.auto_merge ≡ some n
    → ((settleable m ≡ true) × (settle_state m s ≡ n)) ⊎ (confirm_terminal m s ≡ some n)
unfolding settle_current
settle_current_inversion m n o after s h e = ground arith

settle-Restrains :
    (m n : AutoMergeState) (o after : PrObservation) (s : Settlement)
    → settle_current o m s ≡ some after
    → after.auto_merge ≡ some n
    → Restrains m n
settle-Restrains m n o after s h e = elim (settle_current_inversion m n o after s h e) [
  | inl (open_, same) ↦ subst (λ x. Restrains m x) same (settle_state-Restrains m s open_)
  | inr told ↦ confirm_terminal-Restrains m n s told
]

MergeStep-Restrains : {m n : AutoMergeState} → MergeStep m n → Restrains m n
MergeStep-Restrains (observes m p now) = observe-Restrains m p now
MergeStep-Restrains (revokes m why now) = revoke-Restrains m why now
MergeStep-Restrains (claims m intent allow_manual _ h) = claim-Restrains m intent allow_manual h
MergeStep-Restrains (settles m n o after s h e) = settle-Restrains m n o after s h e

-- Whatever is observed, claimed, settled or revoked, and in whatever order, a merge state stays
-- about the same task, head, comparison base, branches and policy, merge authority that is gone
-- never comes back, and a merged or closed outcome is never replaced by another status.
pub MergeReach-Restrains : {m n : AutoMergeState} → MergeReach m n → Restrains m n
MergeReach-Restrains {m} here = ground arith
MergeReach-Restrains {m} (next {n} {o} r s) =
    Restrains-trans m n o (MergeReach-Restrains r) (MergeStep-Restrains s)

-- The observed pull request is owned and has the recorded head, head branch and base branch.
abbrev pub SameDelivery : AutoMergeState → PullRequest → Type 0
SameDelivery m p =
    (p.owned ≡ true)
    × (p.head ≡ m.head)
    × (p.branch ≡ m.head_branch)
    × (p.base ≡ m.base_branch)
    × (m.head_branch ≢ [])
    × (m.base_branch ≢ [])

abbrev pub IsFinished : AutoMergeState → Type 0
IsFinished m = (m.status ≡ merged) ⊎ (m.status ≡ closed)

-- A merge that may already have been sent.
abbrev pub IsInFlight : AutoMergeState → Type 0
IsInFlight m = (m.status ≡ merging) ⊎ (m.status ≡ uncertain)

abbrev pub IsKnownState : PullRequest → Type 0
IsKnownState p =
    (p.state ≡ codes "open") ⊎ ((p.state ≡ codes "merged") ⊎ (p.state ≡ codes "closed"))

bound-SameDelivery : (m : AutoMergeState) (p : PullRequest) → bound m p ≡ true → SameDelivery m p
unfolding bound
bound-SameDelivery m p h = (
  ground arith,
  ==→≡ p.head m.head (ground arith),
  ==→≡ p.branch m.head_branch (ground arith),
  ==→≡ p.base m.base_branch (ground arith),
  λ e. let same = ≡→== m.head_branch [] e in absurd (ground arith),
  λ e. let same = ≡→== m.base_branch [] e in absurd (ground arith),
)

not_empty : (xs : Text) → xs ≢ [] → (xs == []) ≡ false
not_empty xs h = elim (Bool-cases (xs == [])) [ inl e ↦ absurd (h (==→≡ xs [] e)) | inr e ↦ e ]

SameDelivery-bound : (m : AutoMergeState) (p : PullRequest) → SameDelivery m p → bound m p ≡ true
unfolding bound
SameDelivery-bound m p (owned, head, branch, base, some_head, some_base) =
    let a = ≡→== p.head m.head head in
    let b = ≡→== p.branch m.head_branch branch in
    let c = ≡→== p.base m.base_branch base in
    let d = not_empty m.head_branch some_head in
    let e = not_empty m.base_branch some_base in ground arith

-- The two tests of the source differ in the state of the pull request only.
same_delivery_head-bound :
    (m : AutoMergeState) (p : PullRequest)
    → same_delivery_head m p ≡ (p.state == codes "open" && bound m p)
unfolding same_delivery_head bound
same_delivery_head-bound m p = ground arith

observe-kept :
    (m : AutoMergeState) (p : PullRequest) (now : Text)
    → (observe m p now).authorized ≡ true
    → (m.authorized ≡ true)
      × (IsFinished m ⊎ ((bound m p ≡ true) × (IsInFlight m ⊎ IsKnownState p)))
unfolding observe pending
observe-kept m p now h = let same = same_delivery_head-bound m p in (ground arith, ground arith)

kept-observe :
    (m : AutoMergeState) (p : PullRequest) (now : Text)
    → m.authorized ≡ true
    → IsFinished m ⊎ ((bound m p ≡ true) × (IsInFlight m ⊎ IsKnownState p))
    → (observe m p now).authorized ≡ true
unfolding observe pending
kept-observe m p now a h = let same = same_delivery_head-bound m p in ground arith

-- Authority is in place after an observation exactly when it was before and either the merge had its
-- outcome recorded, or the observed pull request is owned, has the recorded head, head branch and base
-- branch, neither of them empty, and is open, merged or closed where no merge is in flight.
pub observe-authorized :
    (m : AutoMergeState) (p : PullRequest) (now : Text)
    → ((observe m p now).authorized ≡ true) ↔ (
        (m.authorized ≡ true)
        × (IsFinished m ⊎ (SameDelivery m p × (IsInFlight m ⊎ IsKnownState p))))
observe-authorized m p now = (
  λ h.
      let (a, cases) = observe-kept m p now h in
      (a, elim cases [ inl f ↦ inl f | inr (b, k) ↦ inr (bound-SameDelivery m p b, k) ]),
  λ (a, cases).
      kept-observe m p now a
        (elim cases [ inl f ↦ inl f | inr (d, k) ↦ inr (SameDelivery-bound m p d, k) ]),
)
