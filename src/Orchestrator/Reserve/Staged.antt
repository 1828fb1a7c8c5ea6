-- ===== src/Orchestrator/Reserve/Staged.antt =====
-- About the staged protocol of `reserveDispatch` of agent/orchestrator/prepared.go.
use review.Base.{
  String, true, false, if◌then◌else◌, Option, none, some, new, ok, ◌+◌, ◌≤◌, ◌<◌, ◌≡◌, refl, sym,
  ap, subst, ◌∙◌, ◌⊎◌, inl, inr, arith, eq_iff, Bool-cases, Result-cases,
}
use review.Orchestrator.Intent.{DispatchIntent, DispatchPermit, PreparedAction, ActionClaim}
use review.Orchestrator.Action.{Action, ◌>>=◌, ◌>>◌, return, fail, continue-eq-ok}
use review.Orchestrator.Env.{Authority, Env}
use review.Orchestrator.Reserve.{
  claim_and_begin, reserve_dispatch, check_stored, bad_claim, bad_permit, bad_prepared,
  begin_checked, check_intent, own_checked, started_permit,
}

module _ {W : Type 0} (env : Env W) (prepare : DispatchIntent → Action W PreparedAction)
    (claim : PreparedAction → String → Action W ActionClaim)
    (begin : ActionClaim → Action W DispatchPermit) (i : DispatchIntent) where
  -- What the authority and the opaque names answered, from the prepared action `p` in the world `w`:
  -- the worker's name, the claim, and the permit of the claimed action.
  pub record IsAsked (p : PreparedAction) (w : W) (worker : String) (c : ActionClaim)
      (permit : DispatchPermit) : Type 0 where
    pub named : W
    pub claimed : W
    pub begun : W
    pub name : env.new_opaque_id "dispatch-" w ≡ (named, ok worker)
    pub claims : claim p worker named ≡ (claimed, ok c)
    pub begins : begin c claimed ≡ (begun, ok permit)

  -- The claim stores an intent that encodes as the one that was asked.
  abbrev pub IsUnchanged : ActionClaim → Type 0
  IsUnchanged c =
      (stored : DispatchIntent) × (c.intent ≡ some stored)
      × (s : String) × (env.encode_intent i ≡ ok s)
      × (env.encode_intent stored ≡ ok s)

  -- A permit for the action that was prepared, which this worker claimed and began: it carries the
  -- claim's fence, one above the prepared one, and ends in time.
  pub record IsOwned (p : PreparedAction) (w : W) (permit : DispatchPermit) : Type 0 where
    pub worker : String
    pub owner : ActionClaim
    pub asked : IsAsked p w worker owner permit
    pub action : (permit.id ≡ p.id) × (permit.request_digest ≡ p.request_digest)
    pub claimed : (owner.id ≡ p.id) × (owner.request_digest ≡ p.request_digest)
    pub by_worker : (owner.worker_id ≡ worker) × (permit.worker_id ≡ worker)
    pub fence : (owner.fence ≡ p.fence + 1) × (permit.fence ≡ p.fence + 1)
    pub leased : 0 < owner.lease_until
    pub same_job : env.same_job owner.job i.job ≡ true
    pub ends : 0 < permit.not_after
    pub in_time : (i.execution.deadline_at ≡ 0) ⊎ (permit.not_after ≤ i.execution.deadline_at)
    pub unchanged : IsUnchanged owner

  in_time_of :
      (p : PreparedAction) (worker : String) (c : ActionClaim) (permit : DispatchPermit)
      → bad_permit i p c worker permit ≡ false
      → (i.execution.deadline_at ≡ 0) ⊎ (permit.not_after ≤ i.execution.deadline_at)
  unfolding bad_permit
  in_time_of p worker c permit g = ground arith

  stored_same :
      (stored : DispatchIntent) {u : Unit {0}}
      → check_stored env i stored ≡ ok u
      → (s : String) × (env.encode_intent i ≡ ok s) × (env.encode_intent stored ≡ ok s)
  stored_same stored h = elim (Result-cases (env.encode_intent i)) [
    | inr (e, a) ↦ absurd (let k = (rw (check_stored, a) at h) in ground arith)
    | inl (s, a) ↦ elim (Result-cases (env.encode_intent stored)) [
      | inr (e, b) ↦ absurd (let k = (rw (check_stored, a, b) at h) in ground arith)
      | inl (t, b) ↦
          let k = (rw (check_stored, a, b) at h) in
          let q : s ≡ t = ground (arith, eq_iff s t) in (s, a, b ∙ ap ok (sym q))
    ]
  ]

  given_same :
      (given : Option DispatchIntent) {u : Unit {0}}
      → check_intent env i given ≡ ok u
      → (stored : DispatchIntent) × (given ≡ some stored)
        × (s : String) × (env.encode_intent i ≡ ok s)
        × (env.encode_intent stored ≡ ok s)
  given_same none h = absurd (cc)
  given_same (some stored) h = let (s, a, b) = stored_same stored h in (stored, refl, s, a, b)

  begin_checked-ok :
      (p : PreparedAction) (worker : String) (c : ActionClaim) (w : W) {v : W}
      {permit : DispatchPermit}
      → begin_checked env begin i p worker c w ≡ (v, ok permit)
      → (bad_permit i p c worker permit ≡ false) × (x : W) × (begin c w ≡ (x, ok permit))
  unfolding begin_checked
  begin_checked-ok p worker c w {v} {permit} h =
      let (w1, q, b, h1) =
        continue-eq-ok (begin c w)
          (λ q.
            fail (bad_permit i p c worker q) (new "invalid fenced sending receipt")
            >> return (ok q))
          {v = v} {b = permit} h in
      elim (Bool-cases (bad_permit i p c worker q)) [
        | inl bad ↦ absurd (let k = (rw bad at h1) in ground arith)
        | inr good ↦
            let k = (rw good at h1) in
            let e : q ≡ permit = ground arith in
            (subst (λ z. bad_permit i p c worker z ≡ false) e good, w1, b ∙ ap (λ z. (w1, ok z)) e)
      ]

  own_checked-parts :
      (p : PreparedAction) (worker : String) (c : ActionClaim) (w : W) {v : W}
      {permit : DispatchPermit}
      → own_checked env begin i p worker c w ≡ (v, ok permit)
      → (bad_claim env i p worker c ≡ false)
        × IsUnchanged c
        × (bad_permit i p c worker permit ≡ false)
        × (x : W) × (begin c w ≡ (x, ok permit))
  unfolding own_checked
  own_checked-parts p worker c w {v} {permit} h = elim (Bool-cases (bad_claim env i p worker c)) [
    | inl bad ↦ absurd (let k = (rw bad at h) in ground arith)
    | inr good ↦ elim (Result-cases (check_intent env i c.intent)) [
      | inr (e, a) ↦ absurd (let k = (rw (good, a) at h) in ground arith)
      | inl (u, a) ↦
          let k : begin_checked env begin i p worker c w ≡ (v, ok permit) = (rw (good, a) at h) in
          let (fine, x, b) = begin_checked-ok p worker c w k in
          (good, given_same c.intent a, fine, x, b)
    ]
  ]

  IsOwned-of_parts :
      (p : PreparedAction) (worker : String) (c : ActionClaim) (permit : DispatchPermit) (w : W)
      → IsAsked p w worker c permit
      → bad_claim env i p worker c ≡ false
      → IsUnchanged c
      → bad_permit i p c worker permit ≡ false
      → IsOwned p w permit
  unfolding bad_claim bad_permit
  IsOwned-of_parts p worker c permit w asked h u g = record {
    worker = worker;
    owner = c;
    asked = asked;
    action = (
      ground (arith, eq_iff permit.id p.id),
      ground (arith, eq_iff permit.request_digest p.request_digest),
    );
    claimed = (
      ground (arith, eq_iff c.id p.id),
      ground (arith, eq_iff c.request_digest p.request_digest),
    );
    by_worker =
        (ground (arith, eq_iff c.worker_id worker), ground (arith, eq_iff permit.worker_id worker));
    fence = (ground arith, ground arith);
    leased = ground arith;
    same_job = ground arith;
    ends = ground arith;
    in_time = in_time_of p worker c permit g;
    unchanged = u;
  }

  claim_and_begin-IsOwned :
      (p : PreparedAction) (w : W) {v : W} {permit : DispatchPermit}
      → claim_and_begin env claim begin i p w ≡ (v, ok permit)
      → IsOwned p w permit
  unfolding claim_and_begin
  claim_and_begin-IsOwned p w {v} {permit} h =
      let (w1, worker, a, h1) =
        continue-eq-ok (env.new_opaque_id "dispatch-" w)
          (λ worker. claim p worker >>= λ c. own_checked env begin i p worker c) {v = v}
          {b = permit} h in
      let (w2, c, b, h2) =
        continue-eq-ok (claim p worker w1) (λ c. own_checked env begin i p worker c) {v = v}
          {b = permit} h1 in
      let (good, u, fine, w3, d) = own_checked-parts p worker c w2 h2 in
      let asked : IsAsked p w worker c permit = record {
        named = w1;
        claimed = w2;
        begun = w3;
        name = a;
        claims = b;
        begins = d;
      } in
      IsOwned-of_parts p worker c permit w asked good u fine

  -- A permit that the staged protocol gives is for the action of the intent, which the authority
  -- prepared. Either that action had been started, and the permit says so; or a newly named worker
  -- claimed and began it, the intent that its claim stores encodes as the one that was asked, and the
  -- permit is the one that the authority began, for that worker, at the fence that follows the
  -- prepared one, and ends by the deadline of the intent.
  pub reserve_dispatch-IsOwned :
      (w : W) {v : W} {permit : DispatchPermit}
      → reserve_dispatch env (Authority.staged prepare claim begin) i w ≡ (v, ok permit)
      → (permit.id ≡ i.action_id)
        × (permit.request_digest ≡ i.request_digest)
        × (prepared : W) × (p : PreparedAction) × (prepare i w ≡ (prepared, ok p))
        × (((p.already_started ≡ true) × (permit.already_started ≡ true))
            ⊎ ((p.already_started ≡ false) × IsOwned p prepared permit))
  unfolding reserve_dispatch
  reserve_dispatch-IsOwned w {v} {permit} h =
      let (w1, p, a, h1) =
        continue-eq-ok (prepare i w)
          (λ p.
            fail (bad_prepared i p) (new "invalid prepared receipt")
            >> (if p.already_started
                then return (ok (started_permit p))
                else claim_and_begin env claim begin i p))
          {v = v} {b = permit} h in
      elim (Bool-cases (bad_prepared i p)) [
        | inl bad ↦ absurd (let k = (rw bad at h1) in ground arith)
        | inr good ↦
            let ids : (p.id ≡ i.action_id) × (p.request_digest ≡ i.request_digest) = (
              ground (arith, eq_iff p.id i.action_id),
              ground (arith, eq_iff p.request_digest i.request_digest),
            ) in
            elim (Bool-cases p.already_started) [
              | inl old ↦
                  let k = (rw (good, old) at h1) in
                  let e : started_permit p ≡ permit = ground arith in
                  (
                    ap (λ (z : DispatchPermit). z.id) (sym e) ∙ ids.0,
                    ap (λ (z : DispatchPermit). z.request_digest) (sym e) ∙ ids.1,
                    w1,
                    p,
                    a,
                    inl (old, ap (λ (z : DispatchPermit). z.already_started) (sym e)),
                  )
              | inr fresh ↦
                  let owned = claim_and_begin-IsOwned p w1 (rw (good, fresh) at h1) in
                  (owned.action.0 ∙ ids.0, owned.action.1 ∙ ids.1, w1, p, a, inr (fresh, owned))
            ]
      ]
