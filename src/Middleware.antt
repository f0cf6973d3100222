-- ===== src/Middleware.antt =====
-- middleware.go: what the handler reads off a request, what may be cached, and what goes to the client.
-- Serve has the handler itself.
pub mod Serve
pub mod Paths
pub mod Leader
pub mod Caching
pub mod Sent
pub mod Replies
pub mod Followers
pub mod Boundary
pub mod Warm
pub mod Twice
mod Runs
use cache_predict.Common.{
  ℕ, Bool, true, false, not, ◌&&◌, ◌||◌, Option, none, some, List, [], ◌∷◌, ◌++◌, leb, ◌==◌, ltb,
  if◌then◌else◌, length,
}
use cache_predict.Common.Int.{ℤ, pos, later_by}
use cache_predict.Common.Words.{Bytes}
use cache_predict.Common.Dict.{bytes_key}
use cache_predict.Common.Text.{codes, is_empty, contains, has_prefix, to_lower, to_upper}
use cache_predict.ClientAssets.{build_speculation_rules_header}
use cache_predict.Dense.Ops.{Prediction}
use cache_predict.Engine.{Engine, Config, is_route_public, is_request_authenticated, chosen}
use cache_predict.Entry.{ResponseEntry, matches_vary}
use cache_predict.Http
use cache_predict.Http.{Header}
use cache_predict.Normalizer.{canonical_cache_key_with_host}
use cache_predict.Prefetcher.{submit, Prefetcher}
use cache_predict.Request.{Request, Cookie}
use cache_predict.Store.{Store}
use cache_predict.Vary.{names_none, vary_key, extract_vary_map}
use cache_predict.Writer.{Client, CapturingResponseWriter, status_of, send, send_header}

-- What the middleware calls of the Predictor interface.
pub record Predictor (P : Type 0) : Type 0 where
  pub record_visit : Bytes → Bytes → Bytes → Bytes → P → P
  pub predict : Bytes → ℤ → P → List Prediction

-- The times that one request reads.
pub record Clock : Type 0 where
  pub looked : ℕ
  pub looked_vary : ℕ
  pub checked : ℕ
  pub checked_vary : ℕ
  pub created : ℕ
  pub expiring : ℕ
  pub stored : ℕ
  pub stored_vary : ℕ

-- What the handler has read off the request when it looks into the cache.
pub record Ask : Type 0 where
  pub r : Request
  pub session : Bytes
  pub method : Bytes
  pub is_speculative : Bool
  pub no_cache : Bool
  pub no_store : Bool
  pub is_public : Bool
  pub is_auth : Bool
  pub key : Bytes

-- The client and the engine while a request is served.
pub record Served (S P : Type 0) : Type 0 where
  pub w : Client
  pub e : Engine S P

unfoldable pub asks_no_cache : Header → Bool
asks_no_cache h =
    let cc = Http.get h (codes "Cache-Control") in
    contains cc (codes "no-cache")
    || (contains cc (codes "max-age=0")
        || bytes_key.same (Http.get h (codes "Pragma")) (codes "no-cache"))

unfoldable pub asks_no_store : Header → Bool
asks_no_store h = contains (Http.get h (codes "Cache-Control")) (codes "no-store")

abbrev pub is_safe : Bytes → Bool
is_safe method = bytes_key.same method (codes "GET") || bytes_key.same method (codes "HEAD")

-- Upgrades, event streams and ranges
unfoldable pub is_bypassed : Header → Bool
is_bypassed h =
    not (is_empty (Http.get h (codes "Upgrade")))
    || (contains (Http.get h (codes "Accept")) (codes "text/event-stream")
        || not (is_empty (Http.get h (codes "Range"))))

-- extractSession and r.Cookie: the first cookie of the name
unfoldable pub cookie_value : Bytes → List Cookie → Bytes
cookie_value name [] = []
cookie_value name (c ∷ cookies) =
    if bytes_key.same c.name name then c.value else cookie_value name cookies

unfoldable pub extract_session : {S P : Type 0} → Config S P → Request → Bytes
extract_session cfg r = elim cfg.session_extractor [
  | some extract ↦ extract r
  | none ↦
      let value = cookie_value cfg.session_cookie_name r.cookies in
      if is_empty value then Http.get r.header (codes "X-Session-ID") else value
]

pub data SameSite : Type 0 where
  default_mode lax_mode strict_mode none_mode : SameSite

-- What the source sets of an http.Cookie.
pub record HttpCookie : Type 0 where
  pub name : Bytes
  pub value : Bytes
  pub path : Bytes
  pub http_only : Bool
  pub secure : Bool
  pub same_site : SameSite
  pub max_age : ℕ

-- writeSessionCookie, with http.SetCookie as an argument
unfoldable pub write_session_cookie :
    {S P : Type 0} → (HttpCookie → Client → Client) → Config S P → Bytes → Client → Client
write_session_cookie set_cookie cfg sid w =
    set_cookie
      (record {
        name = cfg.session_cookie_name;
        value = sid;
        path = codes "/";
        http_only = true;
        secure = cfg.cookie_secure;
        same_site = lax_mode;
        max_age = 86400;
      })
      w

-- The first condition of the cache: the response itself.
unfoldable pub can_cache : Ask → CapturingResponseWriter → Bool
can_cache a rec =
    let cc = Http.get rec.header (codes "Cache-Control") in
    (status_of rec == 200)
    && (leb (length (Http.values rec.header (codes "Set-Cookie"))) 0
        && (not (contains cc (codes "no-store"))
            && (not (contains cc (codes "private"))
                && (not (bytes_key.same (Http.get rec.header (codes "Vary")) (codes "*"))
                    && (not a.is_auth || (a.is_public || contains cc (codes "public")))))))

unfoldable pub new_entry : Clock → ℤ → Request → CapturingResponseWriter → ResponseEntry
new_entry t ttl r rec = record {
  body = rec.buf;
  header = rec.header;
  content_type = Http.get rec.header (codes "Content-Type");
  status_code = status_of rec;
  created_at = t.created;
  expires_at = some (later_by t.expiring ttl);
  vary = extract_vary_map r.header (Http.get rec.header (codes "Vary"));
}

add_values : Bytes → List Bytes → Header → Header
add_values k [] h = h
add_values k (v ∷ vv) h = add_values k vv (Http.add h k v)

-- The headers of an entry go to the client, but for those that the store keeps in it.
unfoldable pub add_visible : Header → Header → Header
unfolding add_values
add_visible [] h = h
add_visible ((k, vv) ∷ more) h =
    add_visible more
      (if has_prefix (to_lower k) (codes "x-precog-vary") then h else add_values k vv h)

unfoldable pub with_content_type : Bytes → Header → Header
with_content_type content_type h =
    if not (is_empty content_type) && is_empty (Http.get h (codes "Content-Type"))
    then Http.set h (codes "Content-Type") content_type
    else h

-- The reply on a miss; an empty content type leaves the header's.
unfoldable pub reply : Header → Bytes → ℕ → Bytes → Client → Client
reply h content_type code body w = send body (
    send_header code (record w {
      header =
          Http.set (with_content_type content_type (add_visible h w.header)) (codes "X-Cache")
            (codes "MISS");
    }))

-- WriteResponse
unfoldable pub write_response : ResponseEntry → Client → Client
write_response e w = send e.body (
    send_header (if ltb 0 e.status_code then e.status_code else 200) (record w {
      header =
          Http.set
            (Http.set (with_content_type e.content_type (add_visible e.header w.header))
              (codes "X-Cache") (codes "HIT"))
            (codes "X-Precog") (codes "ram-cache");
    }))

module _ (sum64 : Bytes → ℕ) {S P : Type 0} where
  unfoldable pub ask : Engine S P → Bytes → Request → Ask
  ask e session r =
      let method = to_upper r.method in
      record {
        r = r;
        session = session;
        method = method;
        is_speculative = not (is_empty (Http.get r.header (codes "X-Precog-Speculative")));
        no_cache = asks_no_cache r.header;
        no_store = asks_no_store r.header;
        is_public = is_route_public e r.path;
        is_auth = is_request_authenticated e r;
        key = canonical_cache_key_with_host sum64 method r.host r.path r.raw_query [];
      }

abbrev pub shares : Ask → ResponseEntry → Bool
shares a entry =
    not a.is_auth
    || (a.is_public || contains (Http.get entry.header (codes "Cache-Control")) (codes "public"))

unfoldable pub may_read : Ask → ResponseEntry → Bool
may_read a entry = matches_vary entry a.r.header && shares a entry

module _ (sum64 : Bytes → ℕ) {S : Type 0} (store : Store S) where
  -- The entry under the key of the Vary headers, where there is one.
  unfoldable pub preferred : ℕ → Ask → ResponseEntry → S → ResponseEntry
  preferred now a entry s =
      let vary_header = Http.get entry.header (codes "Vary") in
      let v = vary_key sum64 a.key vary_header a.r.header in
      if names_none vary_header || bytes_key.same v a.key
      then entry
      else chosen (store.get now v s) entry

  -- The entry that the cache has for the request.
  unfoldable pub find_cached : ℕ → ℕ → Ask → S → Option ResponseEntry
  find_cached now then_now a s = elim (store.get now a.key s) [
    | none ↦ none
    | some entry ↦
        let found = preferred then_now a entry s in if may_read a found then some found else none
  ]

  -- The two calls of Set.
  unfoldable pub put_entry : Clock → ℤ → Ask → ResponseEntry → S → ResponseEntry × S
  put_entry t ttl a entry s =
      let vary_header = Http.get entry.header (codes "Vary") in
      let (taken, e1, s1) = store.set t.stored a.key entry ttl s in
      let (taken2, e2, s2) =
        store.set t.stored_vary (vary_key sum64 a.key vary_header a.r.header) e1 ttl s1 in
      if names_none vary_header then (e1, s1) else (e2, s2)

submit_all : Bytes → List Prediction → Request → Option Prefetcher → Option Prefetcher
submit_all session preds r none = none
submit_all session preds r (some p) = some (submit session preds r p)

link : Bytes → Client → Client
link value w =
    if is_empty value then w else record w { header = Http.add w.header (codes "Link") value }

no_predictions : List Prediction → Bool
no_predictions [] = true
no_predictions (p ∷ preds) = false

module _ {S P : Type 0} (predictor : Predictor P) where
  -- predictor.Record, but for a speculative request
  unfoldable pub visit : Ask → Served S P → Served S P
  visit a s = if a.is_speculative then s else record s {
    e = record s.e {
      predictor = predictor.record_visit a.session a.method a.r.path a.r.raw_query s.e.predictor;
    };
  }

  unfoldable pub trigger_prefetch : Ask → Served S P → Served S P
  unfolding submit_all link no_predictions
  trigger_prefetch a s =
      let preds = predictor.predict a.session (pos 3) s.e.predictor in
      if no_predictions preds then s else record {
        w = link (build_speculation_rules_header preds) s.w;
        e = record s.e { prefetcher = submit_all a.session preds a.r s.e.prefetcher };
      }

  unfoldable pub visit_and_prefetch : Ask → Served S P → Served S P
  visit_and_prefetch a s = if a.is_speculative then s else trigger_prefetch a (visit a s)
