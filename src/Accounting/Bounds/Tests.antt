-- ===== src/Accounting/Bounds/Tests.antt =====
-- A catalog with one route, and a request that it prices.
use review.Base.{String, true, false, [], ◌∷◌, some, Result, ok, ◌≡◌, refl, ◌≤◌, ◌*◌, arith}
use review.Base.Int.{pos, ◌+ℤ◌, ◌*ℤ◌, quo}
use review.Base.Text.{is_blank, trim_space}
use review.Base.Names.{contains}
use review.Orchestrator.Intent.{LlmRequest}
use review.Accounting.Bounds.{
  RouteBound, Quote, Catalog, is_unqualified, check_routes, new_catalog, rounded_charge,
  money_bound, is_outside, quote_route, quote_routes, quote,
}
use review.Accounting.Bounds.Cover.{IsPriced, quote-IsPriced, quote_covers, cost}
use review.Orchestrator.Fixtures.{request, intent}

abbrev route : RouteBound
route = record {
  provider = "p";
  model = "m";
  version = "v1";
  currency = "USD";
  evidence_ref = "contract";
  valid_from = 10;
  valid_until = 20;
  input_hard_limit = pos 2000;
  output_hard_limit = pos 500;
  input_micro_per_million = pos 3000001;
  output_micro_per_million = pos 15000000;
  fixed_micro = pos 7;
  all_output_bounded = true;
  max_active_ms = pos 60000;
  native_tools_qualified = false;
}

abbrev catalog : Catalog
catalog = record { routes = route ∷ [] }

abbrev hash : String → String
hash s = s

abbrev decode : String → Result LlmRequest
decode s = ok request

abbrev encode : RouteBound → String
encode r = r.version

abbrev quoted : Quote
quoted = record {
  qualification = route;
  qualification_digest = "sha256:v1";
  input_tokens = pos 2000;
  output_tokens = pos 300;
  money_micro = pos 10508;
  active_ms = pos 60000;
  route_version = "v1";
  evidence_ref = "contract";
  request_digest = "sha256:{review}";
  currency = "USD";
}

built : new_catalog (route ∷ []) ≡ ok catalog
unfolding new_catalog check_routes is_unqualified is_blank trim_space contains
built = refl

-- 2000 tokens at 3.000001 micro each are rounded up.
quotes : quote hash decode encode (some catalog) intent 15 ≡ ok quoted
unfolding quote quote_routes quote_route is_outside money_bound rounded_charge ◌+ℤ◌ ◌*ℤ◌ quo
quotes = refl

quote-IsPriced_example : IsPriced hash decode encode catalog intent 15 quoted
quote-IsPriced_example =
    quote-IsPriced hash decode encode (route ∷ []) catalog intent 15 built quotes

quote_covers_example : cost route 1999 300 ≤ 10508 * 1000000
quote_covers_example =
    quote_covers hash decode encode (route ∷ []) catalog intent 15 built quotes 1999 300
      (omega arith) (omega arith)
