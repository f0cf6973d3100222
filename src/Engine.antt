-- ===== src/Engine.antt =====
-- precog.go: the configuration with its defaults, the engine's state, and who counts as authenticated.
use cache_predict.Common.{
  zero, suc, ◌*◌, ◌^◌, Bool, true, false, not, ◌&&◌, ◌||◌, Option, none, some, List, [], ◌∷◌,
  if◌then◌else◌,
}
use cache_predict.Common.Int.{ℤ, pos, negsuc}
use cache_predict.Common.Words.{Bytes}
use cache_predict.Common.Dict.{bytes_key}
use cache_predict.Common.Text.{codes, is_empty, has_prefix}
use cache_predict.Http
use cache_predict.Prefetcher
use cache_predict.Prefetcher.{Fraction, Prefetcher}
use cache_predict.Request.{Request, Cookie}
use cache_predict.Telemetry.{Telemetry, new_telemetry}

pub record Config (S P : Type 0) : Type 0 where
  pub store : Option S
  pub predictor : Option P
  pub confidence_threshold : Fraction
  pub ttl : ℤ
  pub session_cookie_name : Bytes
  pub cookie_secure : Bool
  pub session_extractor : Option (Request → Bytes)
  pub is_authenticated : Option (Request → Bool)
  pub auth_cookie_names : List Bytes
  pub skip_routes : List Bytes
  pub public_routes : List Bytes
  pub max_response_size : ℤ
  pub coalesce_authenticated : Bool
  pub vary_headers : List Bytes
  pub workers : ℤ

-- The engine; its InflightGroup is in Coalesce.
pub record Engine (S P : Type 0) : Type 0 where
  pub config : Config S P
  pub store : S
  pub predictor : P
  pub prefetcher : Option Prefetcher
  pub telemetry : Telemetry

abbrev pub or_default : ℤ → ℤ → ℤ
or_default (pos zero) d = d
or_default (pos (suc n)) d = pos (suc n)
or_default (negsuc n) d = d

abbrev pub threshold_or_default : Fraction → Fraction
threshold_or_default t = elim t.num [
  | pos zero ↦ record { num = pos 65; den = 100 }
  | pos (suc m) ↦ t
  | negsuc m ↦ record { num = pos 65; den = 100 }
]

abbrev pub chosen {ℓ} : {A : Type ℓ} → Option A → A → A
chosen none d = d
chosen (some a) d = a

-- The loops over path prefixes.
unfoldable pub any_prefix : List Bytes → Bytes → Bool
any_prefix [] path = false
any_prefix (p ∷ prefixes) path = has_prefix path p || any_prefix prefixes path

module _ {S P : Type 0} where
  unfoldable pub with_defaults : Config S P → Config S P
  with_defaults cfg = record cfg {
    confidence_threshold = threshold_or_default cfg.confidence_threshold;
    ttl = or_default cfg.ttl (pos (60 * 10 ^ 9));
    session_cookie_name =
        if is_empty cfg.session_cookie_name then codes "precog_sid" else cfg.session_cookie_name;
    workers = or_default cfg.workers (pos 4);
    max_response_size = or_default cfg.max_response_size (pos (2 * 1024 * 1024));
  }

  -- New, over the store and the predictor that it makes by default
  unfoldable pub new_engine : S → P → Config S P → Engine S P
  new_engine default_store default_predictor cfg = record {
    config = with_defaults cfg;
    store = chosen cfg.store default_store;
    predictor = chosen cfg.predictor default_predictor;
    prefetcher = none;
    telemetry = new_telemetry;
  }

  unfoldable pub is_route_public : Engine S P → Bytes → Bool
  is_route_public e path = any_prefix e.config.public_routes path

unfoldable pub names_cookie : List Bytes → Cookie → Bool
names_cookie [] c = false
names_cookie (name ∷ names) c =
    (bytes_key.same c.name name && not (is_empty c.value)) || names_cookie names c

unfoldable pub any_named : List Bytes → List Cookie → Bool
any_named names [] = false
any_named names (c ∷ cookies) = names_cookie names c || any_named names cookies

unfoldable pub any_other : Bytes → List Cookie → Bool
any_other session_cookie_name [] = false
any_other session_cookie_name (c ∷ cookies) =
    ((is_empty session_cookie_name || not (bytes_key.same c.name session_cookie_name))
      && not (is_empty c.value))
    || any_other session_cookie_name cookies

abbrev pub has_header : Request → Bytes → Bool
has_header r name = not (is_empty (Http.get r.header name))

abbrev pub no_names : List Bytes → Bool
no_names [] = true
no_names (n ∷ names) = false

unfoldable pub is_default_authenticated : Request → Bytes → List Bytes → Bool
is_default_authenticated r session_cookie_name auth_cookie_names =
    if has_header r (codes "Authorization") || has_header r (codes "Proxy-Authorization")
    then true
    else if has_header r (codes "X-Auth-Token") || has_header r (codes "X-API-Key")
    then true
    else if no_names auth_cookie_names
    then any_other session_cookie_name r.cookies
    else any_named auth_cookie_names r.cookies

abbrev pub close_prefetcher : Option Prefetcher → Option Prefetcher
close_prefetcher none = none
close_prefetcher (some p) = some (Prefetcher.close p)

module _ {S P : Type 0} where
  unfoldable pub is_request_authenticated : Engine S P → Request → Bool
  is_request_authenticated e r = elim e.config.is_authenticated [
    | some check ↦ check r
    | none ↦ is_default_authenticated r e.config.session_cookie_name e.config.auth_cookie_names
  ]

  -- Handler, the first time: the prefetcher of the root handler
  unfoldable pub with_handler : Engine S P → Engine S P
  with_handler e = elim e.prefetcher [
    | some p ↦ e
    | none ↦ record e {
      prefetcher = some (record {
        has_handler = true;
        queue = [];
        threshold = e.config.confidence_threshold;
        ttl = e.config.ttl;
        is_auth = some (is_request_authenticated e);
        closed = false;
      });
    }
  ]

  -- Close, over the store's own
  unfoldable pub close : (S → S) → Engine S P → Engine S P
  close close_store e = record e {
    prefetcher = close_prefetcher e.prefetcher;
    store = close_store e.store;
  }
