-- ===== src/Middleware/Runs.antt =====
-- A request of a small site, and the theorems about the handler at it.
use cache_predict.Common.{
  ap, ℕ, ◌≡◌, ◌≢◌, ◌⊎◌, inl, refl, false, none, some, List, [], ◌∷◌, ◌++◌, length,
}
use cache_predict.Common.Int.{pos}
use cache_predict.Common.Words.{Bytes}
use cache_predict.Common.Dict.{bytes_key, lookup, insert}
use cache_predict.Common.Text.{codes, to_upper, contains, trim_space, split}
use cache_predict.ClientAssets.{Assets, serve_client_assets}
use cache_predict.Coalesce.{
  FnResult, returned, result, finished, held, keep_result, unregister, publish, join_call,
}
use cache_predict.Coalesce.TwoCallers.{one_key, ended, to_ended}
use cache_predict.Engine.{
  any_prefix, is_request_authenticated, with_defaults, is_default_authenticated, any_other, Config,
  new_engine,
}
use cache_predict.Entry.{ResponseEntry, matches_vary, all_match}
use cache_predict.Http
use cache_predict.Middleware.{
  HttpCookie, Predictor, Clock, Ask, Served, find_cached, put_entry, new_entry, ask, asks_no_cache,
  asks_no_store, is_bypassed, extract_session, cookie_value,
}
use cache_predict.Middleware.Boundary.{IsShareable, finished-IsShareable}
use cache_predict.Middleware.Leader.{lead_cached}
use cache_predict.Middleware.Caching.{MayBeShared, serve_store}
use cache_predict.Middleware.Followers.{follower_vary}
use cache_predict.Middleware.Paths.{asked, opened, IsCacheable}
use cache_predict.Middleware.Replies.{IsAnswered, serve-IsAnswered}
use cache_predict.Middleware.Serve.{
  open_session, Led, lead, Role, leads, follows, serve, upstream, miss, coalesce_key,
}
use cache_predict.Middleware.Twice.{second-body}
use cache_predict.Middleware.Warm.{Agree-refl, find_cached-put_entry}
use cache_predict.Request.{Request}
use cache_predict.Store.{MemoryStore, memory_store, is_over, expiry_after}
use cache_predict.Store.Laws.{memory_set-body}
use cache_predict.Telemetry.{record_hit}
use cache_predict.Vary.{extract_vary_map, record_parts}
use cache_predict.Writer.{Client, CapturingResponseWriter, Call, set_header, write_call, status_of}
mod Languages

abbrev pub digest : Bytes → ℕ
digest s = length s

-- A predictor that keeps the paths it was told of and predicts nothing.
abbrev pub no_forecast : Predictor (List Bytes)
no_forecast = record {
  record_visit = λ session method path query p. path ∷ p;
  predict = λ session k p. [];
}

abbrev pub site : Request → List Call
site r = set_header (codes "Vary") (codes "Accept-Language") ∷ write_call (codes "hello") ∷ []

abbrev pub blank : Client
blank = record {
  header = [];
  status = none;
  sent = [];
  flushes = 0;
  is_flusher = false;
  is_hijacker = false;
}

abbrev no_assets : Assets
no_assets = record { client_script = []; wasm_exec_script = []; wasm = none; not_found = λ w. w }

abbrev keep_cookie : HttpCookie → Client → Client
keep_cookie cookie w = w

abbrev pub clock : Clock
clock = record {
  looked = 1;
  looked_vary = 1;
  checked = 2;
  checked_vary = 2;
  created = 3;
  expiring = 3;
  stored = 3;
  stored_vary = 3;
}

abbrev config : Config MemoryStore (List Bytes)
config = record {
  store = none;
  predictor = none;
  confidence_threshold = record { num = pos 0; den = 1 };
  ttl = pos 60;
  session_cookie_name = codes "sid";
  cookie_secure = false;
  session_extractor = none;
  is_authenticated = none;
  auth_cookie_names = [];
  skip_routes = [];
  public_routes = [];
  max_response_size = pos 100;
  coalesce_authenticated = false;
  vary_headers = [];
  workers = pos 1;
}

abbrev pub before : Served MemoryStore (List Bytes)
before = record { w = blank; e = new_engine (record { items = [] }) [] config }

abbrev pub visit_home : Request
visit_home = record {
  method = codes "GET";
  path = codes "/";
  raw_query = [];
  host = codes "h";
  header = [];
  cookies = [];
}

abbrev after : Role → Served MemoryStore (List Bytes)
after role =
    serve digest memory_store no_forecast site no_assets (codes "s") keep_cookie clock role
      visit_home before

serve_store_example :
    ((after leads).e.store ≡ before.e.store)
    ⊎ (IsCacheable digest memory_store no_forecast site no_assets
          (codes "s")
          keep_cookie
          visit_home
          before
        × MayBeShared
            (asked digest memory_store no_forecast site no_assets
              (codes "s")
              keep_cookie
              visit_home
              before)
            (upstream digest memory_store no_forecast site
              (asked digest memory_store no_forecast site no_assets
                (codes "s")
                keep_cookie
                visit_home
                before)
              (opened digest memory_store no_forecast site no_assets
                (codes "s")
                keep_cookie
                visit_home
                before).1)
        × ((after leads).e.store
            ≡ (put_entry digest memory_store clock before.e.config.ttl
                (asked digest memory_store no_forecast site no_assets
                  (codes "s")
                  keep_cookie
                  visit_home
                  before)
                (new_entry clock before.e.config.ttl visit_home (
                  upstream digest memory_store no_forecast site
                    (asked digest memory_store no_forecast site no_assets
                      (codes "s")
                      keep_cookie
                      visit_home
                      before)
                    (opened digest memory_store no_forecast site no_assets
                      (codes "s")
                      keep_cookie
                      visit_home
                      before).1))
                before.e.store).1))
serve_store_example =
    serve_store digest memory_store no_forecast site no_assets (codes "s") keep_cookie visit_home
      before clock leads

serve-IsAnswered_example :
    IsAnswered digest memory_store no_forecast site clock leads
      (asked digest memory_store no_forecast site no_assets
        (codes "s")
        keep_cookie
        visit_home
        before)
      before
      (after leads).w.sent
unfolding serve_client_assets
serve-IsAnswered_example =
    serve-IsAnswered digest memory_store no_forecast site memory_set-body no_assets (codes "s")
      keep_cookie (λ cookie w. refl) visit_home before clock leads refl tt

-- The page again, when the site has lost it.
abbrev empty_site : Request → List Call
empty_site r = []

abbrev left_store : Served MemoryStore (List Bytes)
left_store = record before { e = record before.e { store = (after leads).e.store } }

abbrev again : Served MemoryStore (List Bytes)
again =
    serve digest memory_store no_forecast empty_site no_assets (codes "t") keep_cookie clock leads
      visit_home left_store

second-body_example :
    ((after leads).e.store ≡ before.e.store)
    ⊎ ((again.w.sent
          ≡ []
            ++ (upstream digest memory_store no_forecast site
                (asked digest memory_store no_forecast site no_assets
                  (codes "s")
                  keep_cookie
                  visit_home
                  before)
                (opened digest memory_store no_forecast site no_assets
                  (codes "s")
                  keep_cookie
                  visit_home
                  before).1).buf)
        × (again.e.telemetry ≡ record_hit left_store.e.telemetry))
unfolding serve_client_assets ask asks_no_cache asks_no_store is_over expiry_after contains Http.get
    new_engine any_prefix is_bypassed to_upper is_request_authenticated with_defaults open_session
    extract_session cookie_value is_default_authenticated any_other
second-body_example =
    second-body digest no_forecast no_assets keep_cookie (λ cookie w. refl) site empty_site
      (codes "s") (codes "t") visit_home visit_home before left_store clock clock leads leads refl
      refl (refl, refl, refl) refl refl refl (Agree-refl [] _) refl refl refl
