-- ===== src/Lib.antt =====
-- Verification library of 7review, a reviewer of changes whose verdicts a repository's policy binds.
--
-- A policy document (agent/policy/schema.go) is validated (validate.go), its packs are expanded with
-- the obligations of their parents (inheritance.go), and it is compiled for one change and one runtime
-- (compile.go, rules.go) into an effective policy: methods, required checks, a risk floor, publication
-- constraints, tools and limits. A review of the change (agent/review/domain.go) leaves an assessment
-- and a coverage of checks, which the quality gate (agent/policy/gate.go, baseline.go) holds against
-- the effective policy; the gate's result becomes an exit code. A CI job runs the gate without a
-- review: evidence is imported from verified artifacts (agent/review/ci_quality.go, ci_provenance.go)
-- and turned into coverage and findings, with which the coverage of a review's own skills is merged
-- (agent/pipeline/ci_gate.go). A review asks models: the diff is cut into chunks (pipeline.go), each
-- request is priced by a qualified route (agent/accounting/bounds.go), and the orchestrator reserves it
-- with a budget authority before it calls a provider and records the outcome after it
-- (agent/orchestrator). Operators act on a review through a directory (agent/review/operator.go), and
-- comments go to the changed lines of a patch (agent/review/inline_positions.go). A person approves
-- the drafted run, and its final report goes to the source host (agent/pipeline/pipeline.go).
--
-- Files and sources:
--   Base            what the parts share: tests on numbers, lists, Go's errors, times and texts
--   Base/Names      lists as sets: stableUnion, without, sortedCopy (compile.go), sortedUnique (gate.go)
--   Review/Change, Execution, Attempt, Check, Records, Gate
--                   agent/review/domain.go: the records and their Validate methods; Attempt has
--                   AttemptState.Terminal and CanTransitionAttempt
--   Policy/Schema   agent/policy/schema.go, agent/review/limits.go and the types of compile.go
--   Policy/Ids, PathSyntax, DocumentRefs, Triggers, Delegations, Packs, Validate
--                   agent/policy/validate.go, and the path rules of references.go
--   Policy/Ceilings validateLimits and enforceRuntimeCeilings
--   Policy/Inheritance
--                   expandPacks (inheritance.go)
--   Policy/Glob, Scopes, Publication, Rules, Replacement, Compile
--                   agent/policy/compile.go and rules.go: globRegexp and anyGlob, packMatches and
--                   scopeMatches, restrictivePublication, applyRule, applyDelegatedReplacement, Compile
--   Policy/Baseline, Coverage, Findings, Gate
--                   agent/policy/baseline.go and gate.go: ValidateBaseline, the obligations left open,
--                   the findings that count, EvaluateQualityGate and GateExitCode
--   Review/CiProvenance, CiEvidence
--                   agent/review/ci_provenance.go and ci_quality.go: validation and import of evidence
--   Policy/TriggerMatch
--                   agent/policy/triggers.go: EvaluateTrigger
--   Review/Intake   agent/review/intake.go: attestations, readiness and test evidence
--   Review/Operator agent/review/operator.go: Authenticate, ValidateActor and Authorize
--   Review/InlinePositions
--                   agent/review/inline_positions.go: ChangedNewLines and the hunk header; its twin
--                   changedNewLines of agent/pipeline/pipeline.go
--   Pipeline/CiGate agent/pipeline/ci_gate.go: buildCIGateInputs and EvaluateImportedCIGate
--   Pipeline/ReviewCoverage
--                   agent/pipeline/ci_gate.go: mergeReviewCoverage and mergeGateCheck
--   Pipeline/Chunks agent/pipeline/pipeline.go: chunkDiff and estimateTokens
--   Pipeline/RunStore, Pipeline/Approval
--                   agent/pipeline/support.go: MemoryRunStore and its runs; pipeline.go: ApproveRun,
--                   PublishFinal and what they call
--   Accounting/Bounds
--                   agent/accounting/bounds.go: NewCatalog and Catalog.Quote
--   Orchestrator/Intent, Env, Action
--                   agent/orchestrator/budget.go: the records of a dispatch, what lies outside of it,
--                   and calls that change the world
--   Orchestrator/Limits, Reserve, Dispatch, Complete
--                   budget.go, prepared.go and orchestrator.go: newDispatchIntent, reserveDispatch,
--                   invokeReserved, dispatchInvocation and Complete, and the limits of recovery.go
--
-- Conventions. A Go error is a value of Base/Errors: its text, with the operands of a format; an index
-- or a bound among the operands is left out. A function with a named order of early returns keeps that
-- order. Where Go iterates over a map the order decides only which of several errors is returned, and
-- the model takes the order of the literal. A map is a list of entries read by key, and a slice that
-- is compared with nil is an Option. An enumeration is a data type with a constructor `other` for every
-- spelling that is no constant. A text is a sequence of characters, so it is valid UTF-8; its length is
-- counted in bytes. A time is the instant in nanoseconds with 0 for the zero value; whether a period's
-- anchor is in UTC is a field of its own. Unsigned counters are natural numbers and signed ones
-- integers; the code adds only to line numbers, where the wrap of an int is written out, to sums of
-- token estimates, which stay far below it, and to fences, which it tests first. Money is computed by
-- math/big, so exactly. restrictivePublication filters a slice in
-- place; no caller reads the old slice afterwards, so the model returns a new list. Errors in Go may
-- leave a partly changed policy behind, which its callers drop.
--
-- Bounds and fuel. The recursion of expandPacks has one unit of fuel for each pack and one more: the
-- names on the path from the root are distinct packs, so a path longer than that repeats a name, which
-- ends the visit as a cycle. Every other loop is structural recursion.
--
-- Parameters. The canonical JSON of a document and a context and the SHA-256 of it are the parameter
-- `digest_of` of compile. An import takes the decoder of an artifact, with its tests for duplicate keys
-- and trailing data, as `decode`, and the SHA-256 of the payload as `digest_of`. Regular expressions,
-- path.Match, path.Clean and strings are modelled as far as the code uses them; strings.ToLower,
-- strings.EqualFold and strconv.Atoi are parameters, and so are the decoder and the hash of a quote and
-- the hash of a token. A dispatch takes the budget authority, the providers, the clock, encoding/json,
-- the random numbers and reflect.DeepEqual in a record Env over a type of worlds: each call of them may
-- change the world in any way, and a dispatch returns the list of what it did. An approval takes the
-- source host, the channels and the memory in the same way.
--
-- Not modelled: reading and migrating documents (decode.go, document.go, legacy.go, source.go,
-- ResolveReferences), the Clone methods, AttemptEvent's metadata, the findings of a review in the CI
-- gate, the JSON documents of operators and routes, streaming, parallel batches, recovery and
-- continuations of the orchestrator, the commands and checkpoints of agent/review, and the packages that
-- talk to models, hosts, databases and users (the rest of agent/pipeline, its
-- store in files included, accounting, app, llm, channel,
-- ci, tools, ui), which are input and output around this core.
pub mod Accounting
pub mod Base
pub mod Orchestrator
pub mod Pipeline
pub mod Policy
pub mod Review
