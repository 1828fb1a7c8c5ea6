-- ===== src/Accounting/Bounds.antt =====
-- agent/accounting/bounds.go: the qualified routes to models and the bound on what a request may
-- cost. `sha256` stands for the hexadecimal SHA-256, `decode` for the strict JSON decoder with the
-- test for trailing data, and `encode` for the JSON of a route. `Qualification` and `Currency` of a
-- quote are copies of the route.
pub mod Laws
pub mod Cover
mod Tests
use Prim.Native.Char.{nul}
use Prim.Native.String
use review.Base.{
  ℕ, String, Bool, true, false, not, ◌||◌, ◌&&◌, if◌then◌else◌, List, [], ◌∷◌, is_empty, ltb,
  str_eq, Option, none, some, Error, new, wrap, ◌>>◌, fail_if, Result, ok, err, bind, ◌then_ok◌,
}
use review.Base.Int.{ℤ, pos, negsuc, ltb_ℤ, leb_ℤ, ◌+ℤ◌, ◌*ℤ◌, quo}
use review.Base.Text.{is_blank}
use review.Base.Time.{Time, is_zero, before, after}
use review.Base.Names.{contains}
use review.Orchestrator.Intent.{DispatchIntent, LlmRequest}

pub record RouteBound : Type 0 where
  pub provider : String
  pub model : String
  pub version : String
  pub currency : String
  pub evidence_ref : String
  pub valid_from : Time
  pub valid_until : Time
  pub input_hard_limit : ℤ
  pub output_hard_limit : ℤ
  pub input_micro_per_million : ℤ
  pub output_micro_per_million : ℤ
  pub fixed_micro : ℤ
  pub all_output_bounded : Bool
  pub max_active_ms : ℤ
  pub native_tools_qualified : Bool

pub record Quote : Type 0 where
  pub qualification : RouteBound
  pub qualification_digest : String
  pub input_tokens : ℤ
  pub output_tokens : ℤ
  pub money_micro : ℤ
  pub active_ms : ℤ
  pub route_version : String
  pub evidence_ref : String
  pub request_digest : String
  pub currency : String

pub record Catalog : Type 0 where
  pub routes : List RouteBound

-- `int64((1<<63-1)/time.Millisecond)`
abbrev pub max_duration_ms : ℕ
max_duration_ms = 9223372036854

abbrev pub max_int64 : ℕ
max_int64 = 9223372036854775807

abbrev pub route_key : RouteBound → String
route_key r = String.◌++◌ r.provider (String.◌∷◌ nul r.model)

-- The condition of the `if` of `NewCatalog`, but for the test of `seen`.
unfoldable pub is_unqualified : RouteBound → Bool
is_unqualified r =
    is_blank r.provider
    || is_blank r.model
    || str_eq r.version ""
    || str_eq r.evidence_ref ""
    || str_eq r.currency ""
    || leb_ℤ r.input_hard_limit (pos 0)
    || leb_ℤ r.output_hard_limit (pos 0)
    || ltb_ℤ r.input_micro_per_million (pos 0)
    || ltb_ℤ r.output_micro_per_million (pos 0)
    || ltb_ℤ r.fixed_micro (pos 0)
    || leb_ℤ r.max_active_ms (pos 0)
    || ltb_ℤ (pos max_duration_ms) r.max_active_ms
    || not r.all_output_bounded
    || is_zero r.valid_from
    || not (after r.valid_until r.valid_from)

-- The loop of `NewCatalog` over the routes left, with the keys seen.
unfoldable pub check_routes : List String → List RouteBound → Option Error
check_routes seen [] = none
check_routes seen (r ∷ routes) = do
  fail_if (is_unqualified r || contains seen (route_key r))
      (new "invalid or duplicate route qualification")
  check_routes (route_key r ∷ seen) routes

unfoldable pub new_catalog : List RouteBound → Result Catalog
new_catalog routes = check_routes [] routes then_ok ok (record { routes = routes })

unfoldable pub rounded_charge : ℤ → ℤ → ℤ
rounded_charge tokens price = quo (tokens *ℤ price +ℤ pos 999999) 1000000

unfoldable pub money_bound : RouteBound → LlmRequest → ℤ
money_bound r req =
    rounded_charge r.input_hard_limit r.input_micro_per_million
    +ℤ rounded_charge req.max_tokens r.output_micro_per_million
    +ℤ r.fixed_micro

-- `big.Int.IsInt64`
abbrev is_int64 : ℤ → Bool
is_int64 z = leb_ℤ (negsuc max_int64) z && leb_ℤ z (pos max_int64)

-- The condition that a request lies outside of the contract of its route.
unfoldable pub is_outside : RouteBound → LlmRequest → Time → Bool
is_outside r req now =
    before now r.valid_from
    || not (before now r.valid_until)
    || not (str_eq req.model r.model)
    || leb_ℤ req.max_tokens (pos 0)
    || ltb_ℤ r.output_hard_limit req.max_tokens
    || (not (is_empty req.tools) && not r.native_tools_qualified)

module _ (sha256 : String → String) (decode : String → Result LlmRequest)
    (encode : RouteBound → String) where
  -- What the loop of `Quote` does at the route of the intent.
  unfoldable pub quote_route : RouteBound → DispatchIntent → LlmRequest → Time → Result Quote
  quote_route r intent req now =
      fail_if (is_outside r req now) (new "request outside qualified route contract")
      then_ok fail_if (not (is_int64 (money_bound r req)))
          (new "monetary upper bound overflows int64")
      then_ok ok (record {
        qualification = r;
        qualification_digest = String.◌++◌ "sha256:" (sha256 (encode r));
        input_tokens = r.input_hard_limit;
        output_tokens = req.max_tokens;
        money_micro = money_bound r req;
        active_ms = r.max_active_ms;
        route_version = r.version;
        evidence_ref = r.evidence_ref;
        request_digest = intent.request_digest;
        currency = r.currency;
      })

  unfoldable pub quote_routes : List RouteBound → DispatchIntent → LlmRequest → Time → Result Quote
  quote_routes [] intent req now = err (new "resolved provider/model has no qualified bound")
  quote_routes (r ∷ routes) intent req now =
      if not (str_eq r.provider intent.provider) || not (str_eq r.model intent.model)
      then quote_routes routes intent req now
      else quote_route r intent req now

  -- `Catalog.Quote`; `none` is the nil catalog.
  unfoldable pub quote : Option Catalog → DispatchIntent → Time → Result Quote
  quote none intent now = err (new "missing qualification or oversized payload")
  quote (some c) intent now =
      fail_if (ltb 1048576 (String.len intent.payload) || str_eq intent.payload "")
        (new "missing qualification or oversized payload")
      then_ok fail_if
          (not (str_eq intent.request_digest (String.◌++◌ "sha256:" (sha256 intent.payload))))
          (new "request digest does not bind payload")
      then_ok bind (decode intent.payload) (λ req. quote_routes c.routes intent req now)
