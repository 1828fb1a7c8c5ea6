-- ===== src/Accounting/Bounds/Cover.antt =====
-- About the money that `Catalog.Quote` of agent/accounting/bounds.go reserves.
use Prim.Native.String
use review.Base.{
  ℕ, String, true, false, not, ◌||◌, ◌&&◌, List, [], ◌∷◌, is_empty, str_eq, some, Result, ok, ◌≡◌,
  refl, subst, ◌∙◌, ◌⊎◌, inl, inr, ◌+◌, ◌*◌, ◌≤◌, ◌<◌, ◌/◌, arith, All, Bool-cases, eq_iff,
  bind-eq-ok,
}
use review.Base.Int.{ℤ, pos, negsuc, pos_part, ◌≤ℤ◌, leb_ℤ, ◌+ℤ◌, ◌*ℤ◌, quo}
use review.Base.Time.{Time}
use review.Orchestrator.Intent.{DispatchIntent, LlmRequest}
use review.Accounting.Bounds.{
  RouteBound, Quote, Catalog, max_int64, rounded_charge, money_bound, is_outside, quote_route,
  quote_routes, quote, new_catalog,
}
use review.Accounting.Bounds.Laws.{IsQualified, new_catalog-IsUnique}

-- Division that rounds up.
round_up : (n : ℕ) → n ≤ (n + 999999) / 1000000 * 1000000
round_up n = omega arith

rounded_charge-pos : (t p : ℕ) → rounded_charge (pos t) (pos p) ≡ pos ((t * p + 999999) / 1000000)
unfolding rounded_charge ◌+ℤ◌ ◌*ℤ◌ quo
rounded_charge-pos t p = ground arith

charge_covers : (t k p : ℕ) → t ≤ k → t * p ≤ (k * p + 999999) / 1000000 * 1000000
charge_covers t k p h = let a : t * p ≤ k * p = grind arith in omega (arith, round_up (k * p))

-- What a call may cost on a route, in millionths of the unit of money that quotes count.
abbrev pub cost : RouteBound → ℕ → ℕ → ℕ
cost r input output =
    input * pos_part r.input_micro_per_million
    + output * pos_part r.output_micro_per_million
    + pos_part r.fixed_micro * 1000000

abbrev pub Covers : RouteBound → ℕ → ℤ → ℤ → Type 0
Covers r m input_limit output_limit =
    (i o : ℕ) → pos i ≤ℤ input_limit → pos o ≤ℤ output_limit → cost r i o ≤ m * 1000000

pos-+ℤ : (a b : ℕ) → pos a +ℤ pos b ≡ pos (a + b)
unfolding ◌+ℤ◌
pos-+ℤ a b = ground arith

covers_of :
    (k t ip op f i o : ℕ)
    → i ≤ k
    → o ≤ t
    → i * ip + o * op + f * 1000000
      ≤ ((k * ip + 999999) / 1000000 + (t * op + 999999) / 1000000 + f) * 1000000
covers_of k t ip op f i o h g = omega (arith, charge_covers i k ip h, charge_covers o t op g)

money_bound-Covers :
    (r : RouteBound) (req : LlmRequest) (t : ℕ)
    → IsQualified r
    → req.max_tokens ≡ pos t
    → (m : ℕ) × (money_bound r req ≡ pos m) × Covers r m r.input_hard_limit req.max_tokens
unfolding money_bound
money_bound-Covers r req t q e =
    let (k, ek, _) = q.input in
    let (ip, ei) = q.input_price in
    let (op, eo) = q.output_price in
    let (f, ef) = q.fixed in
    let x = (k * ip + 999999) / 1000000 in
    let y = (t * op + 999999) / 1000000 in
    (
      x + y + f,
      rw
          (
            e,
            ek,
            ei,
            eo,
            ef,
            rounded_charge-pos k ip,
            rounded_charge-pos t op,
            pos-+ℤ x y,
            pos-+ℤ (x + y) f,
          )
          refl,
      λ i o h g.
          rw (ei, eo, ef)
            (covers_of k t ip op f i o (let h' = (rw ek at h) in omega arith)
              (let g' = (rw e at g) in omega arith)),
    )

tools_served :
    (r : RouteBound) (req : LlmRequest) (now : Time)
    → is_outside r req now ≡ false
    → (req.tools ≡ []) ⊎ (r.native_tools_qualified ≡ true)
unfolding is_outside
tools_served r req now h = served req.tools (ground arith)
  where
    served :
        (tools : List String)
        → (not (is_empty tools) && not r.native_tools_qualified) ≡ false
        → (tools ≡ []) ⊎ (r.native_tools_qualified ≡ true)
    served [] g = inl refl
    served (t ∷ ts) g = inr (ground arith)

abbrev pub In : RouteBound → List RouteBound → Type 0
In r [] = ⊥
In r (x ∷ xs) = (x ≡ r) ⊎ In r xs

In-All : (r : RouteBound) (rs : List RouteBound) → All IsQualified rs → In r rs → IsQualified r
In-All r (x ∷ xs) (q, qs) (inl e) = subst IsQualified e q
In-All r (x ∷ xs) (q, qs) (inr m) = In-All r xs qs m
In-All r [] qs m = absurd m

max_tokens_pos : (z : ℤ) → leb_ℤ z (pos 0) ≡ false → (k : ℕ) × (z ≡ pos k)
max_tokens_pos (pos n) h = (n, refl)
max_tokens_pos (negsuc n) h = absurd (ground arith)

module _ (sha256 : String → String) (decode : String → Result LlmRequest)
    (encode : RouteBound → String) where
  -- What a quote says of its intent and of the catalog that it was taken from.
  pub record IsPriced (c : Catalog) (intent : DispatchIntent) (now : Time) (q : Quote)
      : Type 0 where
    pub listed : In q.qualification c.routes
    pub route :
        (q.qualification.provider ≡ intent.provider) × (q.qualification.model ≡ intent.model)
    pub window : (q.qualification.valid_from ≤ now) × (now < q.qualification.valid_until)
    pub digest :
        (intent.request_digest ≡ String.◌++◌ "sha256:" (sha256 intent.payload))
        × (q.request_digest ≡ intent.request_digest)
    pub limits :
        (q.input_tokens ≡ q.qualification.input_hard_limit)
        × (q.output_tokens ≤ℤ q.qualification.output_hard_limit)
        × (q.active_ms ≡ q.qualification.max_active_ms)
    pub request :
        (req : LlmRequest) × (decode intent.payload ≡ ok req)
        × (req.model ≡ intent.model)
        × (q.output_tokens ≡ req.max_tokens)
        × ((req.tools ≡ []) ⊎ (q.qualification.native_tools_qualified ≡ true))
    pub money : (m : ℕ) × (q.money_micro ≡ pos m) × (m ≤ max_int64)

  record Quoted (r : RouteBound) (intent : DispatchIntent) (req : LlmRequest) (now : Time)
      (q : Quote) : Type 0 where
    inside : is_outside r req now ≡ false
    bounded : leb_ℤ (money_bound r req) (pos max_int64) ≡ true
    same : q.qualification ≡ r
    fields :
        (q.input_tokens ≡ r.input_hard_limit)
        × (q.output_tokens ≡ req.max_tokens)
        × (q.money_micro ≡ money_bound r req)
        × (q.active_ms ≡ r.max_active_ms)
        × (q.request_digest ≡ intent.request_digest)

  quote_route-Quoted :
      (r : RouteBound) (intent : DispatchIntent) (req : LlmRequest) (now : Time) {q : Quote}
      → quote_route sha256 decode encode r intent req now ≡ ok q
      → Quoted r intent req now q
  unfolding quote_route
  quote_route-Quoted r intent req now h = ground arith

  quote_routes-Quoted :
      (rs : List RouteBound) (intent : DispatchIntent) (req : LlmRequest) (now : Time) {q : Quote}
      → quote_routes sha256 decode encode rs intent req now ≡ ok q
      → (r : RouteBound) × In r rs
        × (r.provider ≡ intent.provider)
        × (r.model ≡ intent.model)
        × Quoted r intent req now q
  unfolding quote_routes
  quote_routes-Quoted [] intent req now h = absurd (cc)
  quote_routes-Quoted (r ∷ rs) intent req now h =
      elim (Bool-cases
        (not (str_eq r.provider intent.provider) || not (str_eq r.model intent.model))) [
          | inl e ↦
              let (s, m, p, n, t) = quote_routes-Quoted rs intent req now (rw e at h) in
              (s, inr m, p, n, t)
          | inr e ↦ (
            r,
            inl refl,
            ground (arith, eq_iff r.provider intent.provider),
            ground (arith, eq_iff r.model intent.model),
            quote_route-Quoted r intent req now (rw e at h),
          )
        ]

  Quoted-money :
      (r : RouteBound) (intent : DispatchIntent) (req : LlmRequest) (now : Time) (q : Quote)
      → IsQualified r
      → Quoted r intent req now q
      → (m : ℕ) × (q.money_micro ≡ pos m)
        × (m ≤ max_int64)
        × Covers q.qualification m q.input_tokens q.output_tokens
  unfolding is_outside
  Quoted-money r intent req now q w z =
      let (t, e) = max_tokens_pos req.max_tokens (let i = z.inside in ground arith) in
      let (m, em, cov) = money_bound-Covers r req t w e in
      let small = rw em at z.bounded in
      (m, z.fields.2 ∙ em, ground arith, rw (z.same, z.fields.0, z.fields.1) cov)

  Quoted-IsPriced :
      (c : Catalog) (r : RouteBound) (intent : DispatchIntent) (req : LlmRequest) (now : Time)
      (q : Quote)
      → All IsQualified c.routes
      → intent.request_digest ≡ String.◌++◌ "sha256:" (sha256 intent.payload)
      → decode intent.payload ≡ ok req
      → In r c.routes
      → r.provider ≡ intent.provider
      → r.model ≡ intent.model
      → Quoted r intent req now q
      → IsPriced c intent now q
  unfolding is_outside
  Quoted-IsPriced c r intent req now q all d dec m p n z =
      let inside = z.inside in
      record {
        listed = rw z.same m;
        route = rw z.same (p, n);
        window = rw z.same (ground arith, ground arith);
        digest = (d, z.fields.4);
        limits = rw z.same (z.fields.0, rw z.fields.1 (ground arith), z.fields.3);
        request = (
          req,
          dec,
          ground (arith, eq_iff req.model r.model),
          z.fields.1,
          rw z.same (tools_served r req now inside),
        );
        money =
            let (k, e, small, _) = Quoted-money r intent req now q (In-All r c.routes all m) z in
            (k, e, small);
      }

  quote-inv :
      (routes : List RouteBound) (c : Catalog) (intent : DispatchIntent) (now : Time) {q : Quote}
      → quote sha256 decode encode (some c) intent now ≡ ok q
      → (req : LlmRequest) × (decode intent.payload ≡ ok req)
        × (intent.request_digest ≡ String.◌++◌ "sha256:" (sha256 intent.payload))
        × (quote_routes sha256 decode encode c.routes intent req now ≡ ok q)
  unfolding quote
  quote-inv routes c intent now {q} h =
      let (req, dec, found) =
        bind-eq-ok (decode intent.payload)
          (λ req. quote_routes sha256 decode encode c.routes intent req now) {b = q}
          (ground arith) in
      (
        req,
        dec,
        ground
            (arith, eq_iff intent.request_digest (String.◌++◌ "sha256:" (sha256 intent.payload))),
        found,
      )

  module _ (routes : List RouteBound) (c : Catalog) (intent : DispatchIntent) (now : Time)
      {q : Quote} (built : new_catalog routes ≡ ok c)
      (quoted : quote sha256 decode encode (some c) intent now ≡ ok q) where
    -- A quote that a catalog of `NewCatalog` gives is for the route of the intent, within its window of
    -- validity and its token limits, and binds the payload; its money fits an int64.
    pub quote-IsPriced : IsPriced c intent now q
    quote-IsPriced =
        let (req, dec, d, found) = quote-inv routes c intent now quoted in
        let (r, m, p, n, z) = quote_routes-Quoted c.routes intent req now found in
        Quoted-IsPriced c r intent req now q (new_catalog-IsUnique routes built).1 d dec m p n z

    -- The money of such a quote is at least the cost of every use of the route that stays within the
    -- quoted tokens, prices being for a million tokens.
    pub quote_covers :
        (input output : ℕ)
        → pos input ≤ℤ q.input_tokens
        → pos output ≤ℤ q.output_tokens
        → cost q.qualification input output ≤ pos_part q.money_micro * 1000000
    quote_covers input output i o =
        let (req, dec, d, found) = quote-inv routes c intent now quoted in
        let (r, m, p, n, z) = quote_routes-Quoted c.routes intent req now found in
        let (k, e, _, cov) =
          Quoted-money r intent req now q
            (In-All r c.routes (new_catalog-IsUnique routes built).1 m) z in
        rw e (cov input output i o)
