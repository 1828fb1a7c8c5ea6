-- ===== src/Orchestrator/Reserve/Laws.antt =====
-- About `newDispatchIntent` and `reserveDispatch` of agent/orchestrator.
use review.Base.{
  String, Bool, true, false, List, [], ◌∷◌, none, some, Result, ok, err, bind, ◌≡◌, ◌≢◌, refl, ap,
  subst, ◌∙◌, ◌⊎◌, inl, inr, arith, All, eq_iff, Option-cases, Bool-cases, Result-cases,
}
use review.Base.Int.{ℤ, pos, ◌≤ℤ◌}
use review.Policy.Schema.{Limits}
use review.Orchestrator.Intent.{DispatchIntent, LlmRequest}
use review.Orchestrator.Limits.{max_duration_ms, scopes_of, active_bound}
use review.Orchestrator.Limits.Laws.{HasRoom, active_bound-HasRoom}
use review.Orchestrator.Env.{
  PolicyProjection, Context, ModelSpec, Env, policy_enforced, digest_with,
}
use review.Orchestrator.Reserve.{
  policy_limits, admit_dispatch, intent_of, new_dispatch_intent, encode_payload, action_id,
}

-- The limits in force: those of an operator, and those of an enforced policy.
abbrev pub in_force : DispatchIntent → List Limits
in_force i = i.operator_ceilings ∷ elim i.policy_limits [ none ↦ [] | some limits ↦ limits ∷ [] ]

-- What an intent to dispatch says.
pub record IsBound {W : Type 0} (env : Env W) (rc : Context) (req : LlmRequest) (i : DispatchIntent)
    (active : ℤ) : Type 0 where
  pub ceilings : env.operator_ceilings ≡ some i.operator_ceilings
  pub encoded : env.encode_request req ≡ ok i.payload
  pub digest : i.request_digest ≡ digest_with env.sha256 i.payload
  pub policy :
      (policy_enforced rc.policy ≡ false)
      ⊎ ((i.policy_limits ≡ rc.policy.limits)
          × (i.policy_digest ≡ rc.policy.digest)
          × (i.policy_digest ≢ "")
          × ((bound : Limits) × (rc.policy.operator_ceilings ≡ some bound)
              × (env.same_limits bound i.operator_ceilings ≡ true)))
  pub time : (pos 1 ≤ℤ active) × (active ≤ℤ pos max_duration_ms)
  pub room : All (HasRoom req active) (scopes_of (in_force i))

-- An enforced policy that is bound to the ceilings of the operator.
abbrev Adds : (Limits → Limits → Bool) → Limits → PolicyProjection → List Limits → Type 0
Adds same ceilings p added =
    (limits bound : Limits) × (p.limits ≡ some limits)
    × (p.operator_ceilings ≡ some bound)
    × (same bound ceilings ≡ true)
    × (p.digest ≢ "")
    × (added ≡ limits ∷ [])

policy_limits-Adds :
    (same : Limits → Limits → Bool) (ceilings : Limits) (p : PolicyProjection) {added : List Limits}
    → policy_limits same ceilings p ≡ some added
    → ((policy_enforced p ≡ false) × (added ≡ []))
      ⊎ ((policy_enforced p ≡ true) × Adds same ceilings p added)
unfolding policy_limits
policy_limits-Adds same ceilings p {added} h = elim (Bool-cases (policy_enforced p)) [
  | inr off ↦ inl (off, (let k = (rw off at h) in ground arith))
  | inl on ↦ elim (Option-cases p.limits) [
    | inl n ↦ absurd (let k = (rw (on, n) at h) in cc)
    | inr (limits, l) ↦ elim (Option-cases p.operator_ceilings) [
      | inl n ↦ absurd (let k = (rw (on, l, n) at h) in cc)
      | inr (bound, b) ↦
          let k = (rw (on, l, b) at h) in
          inr (
            on,
            (limits, bound, l, b, ground arith, ground (arith, eq_iff p.digest ""), ground arith),
          )
    ]
  ]
]

pair_bound :
    (c ceilings : Limits) (m : Result ℤ) {active : ℤ}
    → bind {B = Limits × ℤ} m (λ t. ok (c, t)) ≡ ok (ceilings, active)
    → (c ≡ ceilings) × (m ≡ ok active)
pair_bound c ceilings (ok t) h = (ground arith, ground arith)
pair_bound c ceilings (err e) h = cc

module _ {W : Type 0} (env : Env W) (rc : Context) (req : LlmRequest) where
  admit_dispatch-parts :
      {ceilings : Limits} {active : ℤ}
      → admit_dispatch env rc req ≡ ok (ceilings, active)
      → (env.operator_ceilings ≡ some ceilings)
        × ((added : List Limits) × (policy_limits env.same_limits ceilings rc.policy ≡ some added)
            × (active_bound req (ceilings ∷ added) ≡ ok active))
  unfolding admit_dispatch
  admit_dispatch-parts {ceilings} {active} h = elim (Option-cases env.operator_ceilings) [
    | inl n ↦ absurd (let k = (rw n at h) in cc)
    | inr (c, e) ↦ elim (Option-cases (policy_limits env.same_limits c rc.policy)) [
      | inl n ↦ absurd (let k = (rw (e, n) at h) in ground arith)
      | inr (added, a) ↦
          let k : bind {B = Limits × ℤ} (active_bound req (c ∷ added)) (λ t. ok (c, t))
              ≡ ok (ceilings, active) =
            let k' = (rw (e, a) at h) in ground arith in
          let (q, bounded) = pair_bound c ceilings (active_bound req (c ∷ added)) k in
          (
            e ∙ ap some q,
            (
              added,
              subst (λ z. policy_limits env.same_limits z rc.policy ≡ some added) q a,
              subst (λ z. active_bound req (z ∷ added) ≡ ok active) q bounded,
            ),
          )
    ]
  ]

  -- `newDispatchIntent` gives an intent only if the context is live and the request is admitted.
  module _ (spec : ModelSpec) (role step invocation : String) (w : W) where
    new_dispatch_intent-parts :
        {v : W} {i : DispatchIntent} {active : ℤ}
        → new_dispatch_intent env rc spec role step req invocation w ≡ (v, ok (i, active))
        → (ceilings : Limits) × (payload id : String) × (admit_dispatch env rc req
            ≡ ok (ceilings, active))
          × (env.encode_request req ≡ ok payload)
          × (intent_of env ceilings rc spec role step invocation payload id ≡ i)
    unfolding new_dispatch_intent
    new_dispatch_intent-parts {v} {i} {active} h = elim (Option-cases (env.ctx_err w)) [
      | inr (e, c) ↦ absurd (let k = (rw c at h) in ground arith)
      | inl c ↦ elim (Result-cases (admit_dispatch env rc req)) [
        | inr (e, a) ↦ absurd (let k = (rw (c, a) at h) in ground arith)
        | inl ((ceilings, t), a) ↦ elim (Result-cases (env.encode_request req)) [
          | inr (e, p) ↦ absurd (let k = (rw (c, a, encode_payload, p) at h) in ground arith)
          | inl (payload, p) ↦ elim (Result-cases (env.random_id w).1) [
            | inr (e, r) ↦
                absurd (let k = (rw (c, a, encode_payload, p, action_id, r) at h) in ground arith)
            | inl (id, r) ↦
                let k = (rw (c, a, encode_payload, p, action_id, r) at h) in
                let q : t ≡ active = ground arith in
                (ceilings, payload, id, a ∙ ap (λ z. ok (ceilings, z)) q, p, ground arith)
          ]
        ]
      ]
    ]

    intent_of-IsBound :
        (ceilings : Limits) (payload id : String) {active : ℤ}
        → admit_dispatch env rc req ≡ ok (ceilings, active)
        → env.encode_request req ≡ ok payload
        → IsBound env rc req (intent_of env ceilings rc spec role step invocation payload id) active
    unfolding intent_of
    intent_of-IsBound ceilings payload id {active} a p =
        let (c, (added, l, b)) = admit_dispatch-parts a in
        let room = active_bound-HasRoom req (ceilings ∷ added) b in
        elim (policy_limits-Adds env.same_limits ceilings rc.policy l) [
          | inl (off, n) ↦ record {
            ceilings = c;
            encoded = p;
            digest = refl;
            policy = inl off;
            time = (room.0, room.1);
            room =
                rw off (subst (λ z. All (HasRoom req active) (scopes_of (ceilings ∷ z))) n room.2);
          }
          | inr (on, (limits, bound, el, eb, same, named, n)) ↦ record {
            ceilings = c;
            encoded = p;
            digest = refl;
            policy = inr (rw on refl, refl, named, (bound, eb, same));
            time = (room.0, room.1);
            room =
                rw (on, el)
                  (subst (λ z. All (HasRoom req active) (scopes_of (ceilings ∷ z))) n room.2);
          }
        ]

    -- An intent to dispatch that is made binds the encoded request by its digest and the operator's
    -- ceilings, and under an enforced policy its limits and its digest, which the operator's ceilings
    -- bound; every scope of the limits in force has room for the request and the granted time.
    pub new_dispatch_intent-IsBound :
        {v : W} {i : DispatchIntent} {active : ℤ}
        → new_dispatch_intent env rc spec role step req invocation w ≡ (v, ok (i, active))
        → IsBound env rc req i active
    new_dispatch_intent-IsBound {v} {i} {active} h =
        let (ceilings, payload, id, a, p, same) = new_dispatch_intent-parts h in
        subst (λ z. IsBound env rc req z active) same (intent_of-IsBound ceilings payload id a p)
