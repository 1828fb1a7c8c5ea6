-- ===== src/Review/Attempt/Lifecycle.antt =====
-- The diagram of an attempt's states, and what `CanTransitionAttempt` allows over time.
use review.Base.{true, ◌≡◌, ◌⊎◌, ◌↔◌, inl, refl, arith, List, [], ◌∷◌}
use review.Review.Attempt.{
  AttemptState, accepted, ready, investigating, waiting, assessed, incomplete, failed, cancelled,
  superseded, can_transition,
}

-- A state from which work goes on.
pub data IsLive : AttemptState → Type 0 where
  live_accepted : IsLive accepted
  live_ready : IsLive ready
  live_investigating : IsLive investigating
  live_waiting : IsLive waiting

infix 40 ◌⟶◌
pub data ◌⟶◌ : AttemptState → AttemptState → Type 0 where
  prepare : accepted ⟶ ready
  start : ready ⟶ investigating
  yield_back : investigating ⟶ ready
  suspend : investigating ⟶ waiting
  assess : investigating ⟶ assessed
  resume : waiting ⟶ ready
  give_up : {s : AttemptState} → IsLive s → s ⟶ incomplete
  fail : {s : AttemptState} → IsLive s → s ⟶ failed
  cancel : {s : AttemptState} → IsLive s → s ⟶ cancelled
  supersede : {s : AttemptState} → IsLive s → s ⟶ superseded

ruleset edges = (
  prepare, start, yield_back, suspend, assess, resume, give_up, fail, cancel, supersede,
  live_accepted, live_ready, live_investigating, live_waiting,
)

can_transition-⟶ : (s t : AttemptState) → can_transition s t ≡ true → s ⟶ t
unfolding can_transition
can_transition-⟶ s t h = grind (arith, edges)

live_stops :
    {s : AttemptState}
    → IsLive s
    → (can_transition s incomplete ≡ true)
      × (can_transition s failed ≡ true)
      × (can_transition s cancelled ≡ true)
      × (can_transition s superseded ≡ true)
unfolding can_transition
live_stops live_accepted = (refl, refl, refl, refl)
live_stops live_ready = (refl, refl, refl, refl)
live_stops live_investigating = (refl, refl, refl, refl)
live_stops live_waiting = (refl, refl, refl, refl)

⟶-can_transition : {s t : AttemptState} → s ⟶ t → can_transition s t ≡ true
unfolding can_transition
⟶-can_transition prepare = refl
⟶-can_transition start = refl
⟶-can_transition yield_back = refl
⟶-can_transition suspend = refl
⟶-can_transition assess = refl
⟶-can_transition resume = refl
⟶-can_transition (give_up l) = (live_stops l).0
⟶-can_transition (fail l) = (live_stops l).1
⟶-can_transition (cancel l) = (live_stops l).2
⟶-can_transition (supersede l) = (live_stops l).3

-- `CanTransitionAttempt` allows exactly the edges of the diagram, for every pair of states,
-- spellings outside the constants included.
pub can_transition_iff : (s t : AttemptState) → (can_transition s t ≡ true) ↔ (s ⟶ t)
can_transition_iff s t = (can_transition-⟶ s t, λ e. ⟶-can_transition e)

-- A sequence of states each of which is allowed after the one before.
abbrev pub IsRun : AttemptState → List AttemptState → Type 0
IsRun s [] = Unit {0}
IsRun s (t ∷ ts) = (can_transition s t ≡ true) × IsRun t ts

abbrev pub final : AttemptState → List AttemptState → AttemptState
final s [] = s
final s (t ∷ ts) = final t ts

abbrev pub Visits : AttemptState → List AttemptState → Type 0
Visits u [] = ⊥
Visits u (t ∷ ts) = (t ≡ u) ⊎ Visits u ts

assessed_needs_investigating :
    (s : AttemptState) (ts : List AttemptState)
    → IsRun s ts
    → final s ts ≡ assessed
    → (s ≡ assessed) ⊎ ((s ≡ investigating) ⊎ Visits investigating ts)
unfolding can_transition
assessed_needs_investigating s [] r e = inl e
assessed_needs_investigating s (t ∷ ts) (r, rs) e =
    ground (arith, assessed_needs_investigating t ts rs e)

assessed_needs_ready :
    (ts : List AttemptState) → IsRun accepted ts → final accepted ts ≡ assessed → Visits ready ts
unfolding can_transition
assessed_needs_ready [] r e = cc
assessed_needs_ready (t ∷ []) (r, rs) e = ground arith
assessed_needs_ready (t ∷ u ∷ us) (r, (q, rs)) e = ground arith

-- An accepted attempt is assessed only by way of `ready` and `investigating`.
pub assessed_was_investigated :
    (ts : List AttemptState)
    → IsRun accepted ts
    → final accepted ts ≡ assessed
    → Visits ready ts × Visits investigating ts
assessed_was_investigated ts r e =
    (assessed_needs_ready ts r e, ground (arith, assessed_needs_investigating accepted ts r e))

-- From every state that is not terminal an attempt can still be assessed.
pub live_can_be_assessed :
    {s : AttemptState} → IsLive s → (ts : List AttemptState) × IsRun s ts × (final s ts ≡ assessed)
unfolding can_transition
live_can_be_assessed live_accepted =
    (ready ∷ investigating ∷ assessed ∷ [], (refl, (refl, (refl, tt))), refl)
live_can_be_assessed live_ready = (investigating ∷ assessed ∷ [], (refl, (refl, tt)), refl)
live_can_be_assessed live_investigating = (assessed ∷ [], (refl, tt), refl)
live_can_be_assessed live_waiting =
    (ready ∷ investigating ∷ assessed ∷ [], (refl, (refl, (refl, tt))), refl)
