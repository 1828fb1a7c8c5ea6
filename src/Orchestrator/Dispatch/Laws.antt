-- ===== src/Orchestrator/Dispatch/Laws.antt =====
-- About `invokeReserved` and `dispatchInvocation` of agent/orchestrator/budget.go.
use review.Base.{
  String, Bool, true, false, not, ◌||◌, ◌&&◌, if◌then◌else◌, List, [], ◌∷◌, Option, none, some,
  Error, Result, ok, err, str_eq, ◌≡◌, refl, sym, ap, subst, ◌⊎◌, inl, inr, arith, eq_iff, is_nil,
  Option-cases, Bool-cases,
}
use review.Base.Int.{ℤ, pos, ◌≤ℤ◌, ltb_ℤ}
use review.Orchestrator.Intent.{DispatchIntent, DispatchPermit, DispatchOutcome, LlmRequest}
use review.Orchestrator.Limits.{deny}
use review.Orchestrator.Env.{
  Context, ModelSpec, Env, policy_enforced, is_some, digest_with, Event, reserved, sent, recorded,
  model_result, ModelCallRef,
}
use review.Orchestrator.Reserve.{new_dispatch_intent}
use review.Orchestrator.Reserve.Laws.{IsBound, new_dispatch_intent-IsBound}
use review.Orchestrator.Dispatch.{
  Run, Call, finish, invoke_within, invoke_reserved, use_permit, dispatch_invocation, note_result,
  reserve, reserve_and_use, with_intent, settle, outcome_of,
}

-- What a provider's call left, and the permit's call that ended there: the outcome for the authority
-- tells the text, whether it came whole, its digest and the time between the two worlds.
pub record Tells {W : Type 0} (env : Env W) (start end : W) (result : String) (error : Option Error)
    (o : DispatchOutcome) : Type 0 where
  pub response : o.response ≡ result
  pub received : o.response_received ≡ is_nil error
  pub digest : o.response_digest ≡ digest_with env.sha256 result
  pub elapsed : o.elapsed_ms ≡ env.elapsed_ms start end
  pub usage : o.usage_known ≡ false

-- The time of a call: what the permit names, or all that was granted where it names none.
abbrev pub IsTimed : DispatchPermit → ℤ → ℤ → Type 0
IsTimed p active ms =
    (ms ≤ℤ active)
    × (((p.active_ms ≡ pos 0) × (ms ≡ active)) ⊎ ((pos 1 ≤ℤ p.active_ms) × (ms ≡ p.active_ms)))

-- The authority was handed the outcome: its answer says whether it was kept, and the dispatch ends
-- in the world that it left.
abbrev pub IsHanded :
    {W : Type 0} → Env W → DispatchPermit → DispatchOutcome → W → Bool → W → Type 0
IsHanded env p o end kept final =
    (kept ≡ is_nil (env.record_outcome p o end).1) × (final ≡ (env.record_outcome p o end).0)

-- Some world from which the time of the permit runs.
abbrev pub IsBegun : {W : Type 0} → Env W → DispatchPermit → ℤ → W → Type 0
IsBegun {W} env p ms start = (w : W) × (start ≡ env.begin_call ms p.not_after w)

-- What a dispatch under a budget may have done, and the world it leaves.
pub data IsPaid {W : Type 0} (env : Env W) (rc : Context) (req : LlmRequest) (call : Call W)
    : List Event → W → Type 0 where
  -- No permit was given.
  denied : (final : W) → IsPaid env rc req call [] final
  -- The permit was refused.
  refused :
      (i : DispatchIntent) (active : ℤ) (p : DispatchPermit) (final : W)
      → IsBound env rc req i active
      → IsPaid env rc req call (reserved i p ∷ []) final
  -- The time was over before the call, and the authority was told so.
  expired :
      (i : DispatchIntent) (active : ℤ) (p : DispatchPermit) (ms : ℤ) (o : DispatchOutcome)
      (kept : Bool) (start final : W) (e : Error)
      → IsBound env rc req i active
      → p.request_digest ≡ i.request_digest
      → p.already_started ≡ false
      → IsTimed p active ms
      → IsBegun env p ms start
      → env.call_err start ≡ some e
      → Tells env start start "" (some e) o
      → IsHanded env p o start kept final
      → IsPaid env rc req call (reserved i p ∷ recorded p o kept ∷ []) final
  -- One call, within the time granted, whose outcome was handed to the authority.
  failed :
      (i : DispatchIntent) (active : ℤ) (p : DispatchPermit) (ms : ℤ) (o : DispatchOutcome)
      (kept : Bool) (start end final : W) (result : String) (error : Option Error)
      → IsBound env rc req i active
      → p.request_digest ≡ i.request_digest
      → p.already_started ≡ false
      → IsTimed p active ms
      → IsBegun env p ms start
      → call start ≡ (end, result, error)
      → Tells env start end result error o
      → IsHanded env p o end kept final
      → IsPaid env rc req call (reserved i p ∷ sent p ms ∷ recorded p o kept ∷ []) final
  -- The same with an answer, which is noted once its outcome is kept.
  answered :
      (i : DispatchIntent) (active : ℤ) (p : DispatchPermit) (ms : ℤ) (o : DispatchOutcome)
      (ref : ModelCallRef) (start end final : W) (result : String)
      → IsBound env rc req i active
      → p.request_digest ≡ i.request_digest
      → p.already_started ≡ false
      → IsTimed p active ms
      → IsBegun env p ms start
      → call start ≡ (end, result, none)
      → Tells env start end result none o
      → IsHanded env p o end true final
      → ref.action_id ≡ p.id
      → ref.request_digest ≡ p.request_digest
      → ref.response_digest ≡ o.response_digest
      → IsPaid env rc req call
          (reserved i p ∷ sent p ms ∷ recorded p o true ∷ model_result ref ∷ [])
          final

-- What `invokeReserved` may have done with a permit.
data Invoked {W : Type 0} (env : Env W) (p : DispatchPermit) (active : ℤ) (call : Call W)
    : List Event → W → Result String → Type 0 where
  unused : (final : W) (e : Error) → Invoked env p active call [] final (err e)
  late :
      (ms : ℤ) (o : DispatchOutcome) (kept : Bool) (start final : W) (e e' : Error)
      → IsTimed p active ms
      → IsBegun env p ms start
      → env.call_err start ≡ some e
      → Tells env start start "" (some e) o
      → IsHanded env p o start kept final
      → Invoked env p active call (recorded p o kept ∷ []) final (err e')
  broken :
      (ms : ℤ) (o : DispatchOutcome) (kept : Bool) (start end final : W) (result : String)
      (error : Option Error) (e : Error)
      → IsTimed p active ms
      → IsBegun env p ms start
      → call start ≡ (end, result, error)
      → Tells env start end result error o
      → IsHanded env p o end kept final
      → Invoked env p active call (sent p ms ∷ recorded p o kept ∷ []) final (err e)
  done :
      (ms : ℤ) (o : DispatchOutcome) (start end final : W) (s : String)
      → IsTimed p active ms
      → IsBegun env p ms start
      → call start ≡ (end, s, none)
      → Tells env start end s none o
      → IsHanded env p o end true final
      → Invoked env p active call (sent p ms ∷ recorded p o true ∷ []) final (ok s)

module _ {W : Type 0} (env : Env W) (call : Call W) where
  abbrev Made : DispatchPermit → ℤ → Run W → Type 0
  Made p active r = Invoked env p active call r.1 r.0 r.2

  outcome_of-Tells :
      (start end : W) (result : String) (error : Option Error)
      → Tells env start end result error (outcome_of env result error (env.elapsed_ms start end))
  outcome_of-Tells start end result error = record {
    response = refl;
    received = refl;
    digest = refl;
    elapsed = refl;
    usage = refl;
  }

  module _ (p : DispatchPermit) (ms active : ℤ) (start : W) (t : IsTimed p active ms)
      (b : IsBegun env p ms start) where
    settle-late :
        (e : Error) (r : W × Option Error) (over : Option Error)
        → env.call_err start ≡ some e
        → let o = outcome_of env "" (some e) (env.elapsed_ms start start) in
          env.record_outcome p o start ≡ r
          → Invoked env p active call
              (recorded p o (is_nil r.1) ∷ [])
              r.0
              (settle env r.1 over "" (some e))
    settle-late e (v, some x) over c h =
        late ms _ false start v e _ t b c (outcome_of-Tells start start "" (some e))
          (ap (λ z. is_nil z.1) (sym h), ap (λ z. z.0) (sym h))
    settle-late e (v, none) (some x) c h =
        late ms _ true start v e _ t b c (outcome_of-Tells start start "" (some e))
          (ap (λ z. is_nil z.1) (sym h), ap (λ z. z.0) (sym h))
    settle-late e (v, none) none c h =
        late ms _ true start v e _ t b c (outcome_of-Tells start start "" (some e))
          (ap (λ z. is_nil z.1) (sym h), ap (λ z. z.0) (sym h))

    settle-sent :
        (end : W) (result : String) (error : Option Error) (r : W × Option Error)
        (over : Option Error)
        → call start ≡ (end, result, error)
        → let o = outcome_of env result error (env.elapsed_ms start end) in
          env.record_outcome p o end ≡ r
          → Invoked env p active call
              (sent p ms ∷ recorded p o (is_nil r.1) ∷ [])
              r.0
              (settle env r.1 over result error)
    settle-sent end result error (v, some x) over c h =
        broken ms _ false start end v result error _ t b c (outcome_of-Tells start end result error)
          (ap (λ z. is_nil z.1) (sym h), ap (λ z. z.0) (sym h))
    settle-sent end result error (v, none) (some x) c h =
        broken ms _ true start end v result error _ t b c (outcome_of-Tells start end result error)
          (ap (λ z. is_nil z.1) (sym h), ap (λ z. z.0) (sym h))
    settle-sent end result (some e) (v, none) none c h =
        broken ms _ true start end v result (some e) e t b c
          (outcome_of-Tells start end result (some e))
          (ap (λ z. is_nil z.1) (sym h), ap (λ z. z.0) (sym h))
    settle-sent end result none (v, none) none c h =
        done ms _ start end v result t b c (outcome_of-Tells start end result none)
          (ap (λ z. is_nil z.1) (sym h), ap (λ z. z.0) (sym h))

    finish-late :
        (e : Error)
        → env.call_err start ≡ some e
        → Made p active (finish env p start [] (start, "", some e))
    unfolding finish
    finish-late e c = settle-late e _ _ c refl

    finish-sent :
        (r : W × String × Option Error)
        → call start ≡ r
        → Made p active (finish env p start (sent p ms ∷ []) r)
    unfolding finish
    finish-sent (end, result, error) c = settle-sent end result error _ _ c refl

    invoke_within-Made : Made p active (invoke_within env p ms call start)
    unfolding invoke_within
    invoke_within-Made = elim (Option-cases (env.call_err start)) [
      | inl n ↦ rw (invoke_within, n) (finish-sent (call start) refl)
      | inr (e, n) ↦ rw (invoke_within, n) (finish-late e n)
    ]

  time_of : DispatchPermit → ℤ → ℤ
  time_of p active = if ltb_ℤ (pos 0) p.active_ms then p.active_ms else active

  time_of-IsTimed :
      (p : DispatchPermit) (active : ℤ)
      → (ltb_ℤ p.active_ms (pos 0) || ltb_ℤ active p.active_ms) ≡ false
      → IsTimed p active (time_of p active)
  unfolding time_of
  time_of-IsTimed p active good = (ground arith, timed)
    where
      timed :
          ((p.active_ms ≡ pos 0) × (time_of p active ≡ active))
          ⊎ ((pos 1 ≤ℤ p.active_ms) × (time_of p active ≡ p.active_ms))
      timed = ground arith

  invoke_reserved-Made :
      (p : DispatchPermit) (active : ℤ) (w : W)
      → Made p active (invoke_reserved env p active call w)
  unfolding invoke_reserved time_of
  invoke_reserved-Made p active w =
      elim (Bool-cases (ltb_ℤ p.active_ms (pos 0) || ltb_ℤ active p.active_ms)) [
        | inl bad ↦ rw bad (unused w (deny "invalid reserved active-time bound"))
        | inr good ↦ rw good (
            let ms = time_of p active in
            invoke_within-Made p ms active (env.begin_call ms p.not_after w)
              (time_of-IsTimed p active good) (w, refl))
      ]

  module _ (rc : Context) (req : LlmRequest) where
    note_result-IsPaid :
        (i : DispatchIntent) (active : ℤ) (p : DispatchPermit) (step : String) (w : W)
        (events : List Event) (r : Result String)
        → IsBound env rc req i active
        → p.request_digest ≡ i.request_digest
        → p.already_started ≡ false
        → Invoked env p active call events w r
        → let run = note_result env p step (w, events, r) in
          IsPaid env rc req call (reserved i p ∷ run.1) run.0
    note_result-IsPaid i active p step _ _ _ b d a (unused w e) = refused i active p w b
    note_result-IsPaid i active p step _ _ _ b d a (late ms o kept start w e e' t g c k h) =
        expired i active p ms o kept start w e b d a t g c k h
    note_result-IsPaid i active p step _ _ _ b d a
          (broken ms o kept start end w result error e t g c k h) =
        failed i active p ms o kept start end w result error b d a t g c k h
    note_result-IsPaid i active p step _ _ _ b d a (done ms o start end w s t g c k h) =
        answered i active p ms o _ start end w s b d a t g c k h refl refl (sym k.digest)

    use_permit-IsPaid :
        (i : DispatchIntent) (active : ℤ) (p : DispatchPermit) (step : String) (w : W)
        → IsBound env rc req i active
        → let run = use_permit env i p active step call w in
          IsPaid env rc req call (reserved i p ∷ run.1) run.0
    unfolding use_permit
    use_permit-IsPaid i active p step w b =
        elim (Bool-cases (str_eq p.id "" || not (str_eq p.request_digest i.request_digest))) [
          | inl bad ↦ rw bad (refused i active p w b)
          | inr good ↦
              let told = λ (started : Bool).
                let run =
                  if started
                  then (w, [], err (deny "action already started; reconcile without resending"))
                  else note_result env p step (invoke_reserved env p active call w) in
                IsPaid env rc req call (reserved i p ∷ run.1) run.0 in
              rw good (elim (Bool-cases p.already_started) [
                | inl old ↦ subst told (sym old) (refused i active p w b)
                | inr fresh ↦ subst told (sym fresh) (
                    note_result-IsPaid i active p step (invoke_reserved env p active call w).0
                      (invoke_reserved env p active call w).1
                      (invoke_reserved env p active call w).2 b
                      (ground (arith, eq_iff p.request_digest i.request_digest)) fresh
                      (invoke_reserved-Made p active w))
              ])
        ]

    reserve_and_use-IsPaid :
        (i : DispatchIntent) (active : ℤ) (step : String) (r : W × Result DispatchPermit)
        → IsBound env rc req i active
        → let run = reserve_and_use env i active step call r in IsPaid env rc req call run.1 run.0
    reserve_and_use-IsPaid i active step (w, ok p) b = use_permit-IsPaid i active p step w b
    reserve_and_use-IsPaid i active step (w, err e) b = denied w

    with_intent-IsPaid :
        (step : String) (r : W × Result (DispatchIntent × ℤ))
        → ((v : W) (i : DispatchIntent) (active : ℤ)
            → r ≡ (v, ok (i, active))
            → IsBound env rc req i active)
        → let run = with_intent env step call r in IsPaid env rc req call run.1 run.0
    with_intent-IsPaid step (w, err e) b = denied w
    with_intent-IsPaid step (w, ok (i, active)) b =
        reserve_and_use-IsPaid i active step (reserve env i w) (b w i active refl)

    -- Under an enforced policy or with operator ceilings, whatever the authority, the provider and the
    -- clock do, a dispatch calls the provider at most once. Before the call stands a permit for the
    -- digest of an intent within the limits in force, not started before; the call's time is the one
    -- that the permit names, or else the one granted, and never above that. After the call the authority
    -- is handed an outcome that tells what the call returned, and where the time was over before the
    -- call, one that tells the error; the dispatch ends in the world that the authority left. An answer
    -- is noted, under the permit and with the outcome's digest, only if the call gave it without an
    -- error and the authority kept its outcome.
    pub dispatch_invocation-IsPaid :
        (spec : ModelSpec) (role step invocation : String) (w : W)
        → (policy_enforced rc.policy || is_some env.operator_ceilings) ≡ true
        → let run = dispatch_invocation env rc spec role step req invocation call w in
          IsPaid env rc req call run.1 run.0
    unfolding dispatch_invocation
    dispatch_invocation-IsPaid spec role step invocation w h = elim (Option-cases (env.ctx_err w)) [
      | inr (e, c) ↦ rw (dispatch_invocation, c) (denied w)
      | inl c ↦
          let off : (not (policy_enforced rc.policy) && not (is_some env.operator_ceilings))
              ≡ false =
            ground arith in
          rw (dispatch_invocation, c, off)
            (with_intent-IsPaid step (new_dispatch_intent env rc spec role step req invocation w)
              λ v i active q. new_dispatch_intent-IsBound env rc req spec role step invocation w q)
    ]
