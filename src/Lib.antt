-- ===== src/Lib.antt =====
-- Octomus is a service for one operator: it plans improvements of a repository, has agents execute
-- and review them as tasks, and delivers pull requests, some of which it merges itself. This
-- library models the rules that decide what may be saved, delivered and merged, the confirmation
-- of an operator's actions in a chat, and the two trust boundaries of a sandbox: the stream
-- between the service and the broker, and the check of a TLS handshake that lets a tunnel through
-- the egress gateway.
--
-- Parts, and the files that model them:
--
-- Base (Base/Tests, Base/Equality, Base/Lists, Base/Strings, Base/Growing, Base/Only, Base/Octets,
-- Base/Decimal): shared notation. A string is the list of its code points; `==` is Go's comparison
-- and internal/wirejson's Equal, as decided equality: two records are equal when all their fields
-- are, which is when they encode alike.
--
-- Config (internal/config): Config/Types is the saved policy with all its fields, Config/Identity
-- the effective categories and the comparison of remotes and paths, Config/Paths the paths that a
-- person must merge. The lower case of a rune, a table of the Go library, is a parameter there.
--
-- Wirejson (internal/wirejson/json.go): the names of enumeration values, and in RoundTrip their
-- parsing.
--
-- Model (internal/model): Model/Enums, Model/Types, Model/Task and Model/PullRequests are the
-- saved records with all their fields. Model/Status has Active, Retryable, AllowedActions and
-- CycleActions; Model/Sessions the session, review and attempt-policy helpers; Model/Reviews has
-- ReviewAuthorizes and VerificationFor. Model/Maintenance is maintenance.go
-- (MaintenanceMergeAuthorized, proved in Evidence and Authorized), where the lower case of a rune
-- is a parameter again; Model/Sandbox is MergeSandbox of sandbox.go, proved in Hosts and Totals.
-- Model/Lifecycle is task_lifecycle.go: Evidence checks that a change only adds to the evidence
-- (validateTaskEvidence), Change is ValidateTaskChange with one definition for each of its tests,
-- Cancel has MergeCancelledTask and SettleTaskEvidence. The proofs about them are in Accepted,
-- Growth, Sound, Run, Diagram, Cancellation and Settle beside them.
--
-- Store (internal/store): Store/Records is the database as a value: tasks and cancellation markers
-- by identity and pull-request rows in insertion order, with a transaction that rolls back on an
-- error. Store/Tasks has txCommitTask and the operations around it (CommitTask, insertTask,
-- ResetTaskCancellation, RetryTask, MarkCancel, CancelTask, and the stamp of txStartBatch on
-- queued tasks), proved in Commits, Refines and History below it. Store/Merges is the
-- automatic-merge state of automerge.go: Observe (preserveAutoMerge, txRevokeTaskMerges), Claim
-- (ClaimMerge), Settle (SettleMerge), proved in Authority and Single. Store/Capacity is
-- capacity.go: PRUnion and AdmitNewPRTask over the records, the reservations, the stored policy
-- and the saved inventory; the proofs about the admission are in Bound. Capacity/Persist is
-- PersistPRInventory, proved in Released. The lower case of a repository's name, strings.ToLower,
-- is a parameter there, and so is the instant that a timestamp denotes (time.Parse).
--
-- Engine (internal/engine): Engine/Actions has the records that the operator's actions save, also
-- after a failed preflight, whose result is an argument; Engine/Actions/Offered relates them to
-- what AllowedActions offers. In Engine/Plan, the rules of plan_rules.go: Ids has matchIDs,
-- checkAssessments and checkConsolidation (proved in IdsExact), Dependencies has
-- validateDependencies (Ready and Order prove its last loop, Search its cycle search, Accepted the
-- whole), Rules has missingField, resolveTarget, validateTaskPlan, the request and rediscovery
-- checks and discoveryProposalLimit (proved in RulesHold), and Proposals has validateProposals
-- (Grounds, Repeats and Committed prove both validations of proposals and tasks). The lower case
-- of a problem's key, from golang.org/x/text, is a parameter of Proposals.
--
-- Chat (internal/chat): Chat/Confirm has the pending confirmations of confirm.go (confirm,
-- takePending, pendingOwnedByOther and the confirm and cancel clicks of handleAction) over an
-- association list from tokens; the token is an argument, where the source draws it at random, and
-- what an action does is a type parameter. The proofs about them are in Once and Asked.
--
-- Sandbox (internal/sandbox): Sandbox/Wire has the frames of wire/wire.go (ReadFrame, Frame, Data)
-- over the bytes of a stream, and ValidLabel; Hosts has NormalizeHost. The lower case of a name
-- and the recognition of an address (netip.ParseAddr) are parameters there. The proofs about the
-- stream are in RoundTrip.
--
-- Egress (internal/egress): Egress/Hello is checkClientHello of clienthello.go with one definition
-- for each field of the message, proved in Vectors, Named and Body; Hello/Records is
-- readClientHello over the bytes that a connection still gives, proved in Framing, Inspected and
-- Ends. Egress/Policy is policy.go: the rules and their parsing (ParseRules, PolicyFromEnv on the
-- texts of its two variables), Policy.allows and probeTarget; the proofs about the target are in
-- Names, Crowded and Probe, those about the reading of a rule in RoundTrip. The host of the
-- CONNECT request and the parameters of NormalizeHost are arguments.
--
-- How the parts meet: the engine builds a record and a kind of change; the store reads the saved
-- record, compares it with the one that the engine expected, merges a competing cancellation, and
-- asks the model to validate the change before it writes. The proofs follow that path: from an
-- invariant of one task that validated changes keep, to the saved tasks that the store's
-- operations move along such changes. Two writes are not validated: the insertion of a task, which
-- the caller makes from a plan, and the stamp of a batch, which sets the run of queued tasks.
--
-- Conventions. A pointer that may be nil is an option, a slice a list, a map an association list,
-- a timestamp its text; the time of a call is an argument. uint64 fields are natural numbers, and
-- the sums of counters that the code computes wrap at 2 ^ 64. Go's Clone copies a record and is
-- the identity on values. Every loop is a recursion on its list, so nothing takes fuel, with these
-- exceptions. In Engine/Plan/Dependencies the depth of the cycle search is bounded by one more
-- than the number of nodes, since every deeper call enters a node that was not entered before, and
-- the rounds of a branch by the number of its writers, since every round removes one. Data of
-- Sandbox/Wire takes the length of the data, since every frame takes at least one byte of it. The
-- extensions of Egress/Hello take the length of their bytes and the records of Hello/Records one
-- more than the length of the input, since every round consumes at least a header.
--
-- Not modelled: the JSON decoder and its reflection, the event log (written, and read by none of
-- these operations), failing SQL statements (a failed statement rolls the transaction back as an
-- error does), goroutines and locks (each operation runs under the store's mutex, the engine's
-- gate or the mutex of its own state, so its steps are atomic), errors of a connection other than
-- its end, and everything that talks to Git, GitHub, Docker, a runner or a chat service.
pub mod Base
pub mod Config
pub mod Wirejson
pub mod Model
pub mod Store
pub mod Engine
pub mod Sandbox
pub mod Egress
pub mod Chat
