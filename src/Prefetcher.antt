-- ===== src/Prefetcher.antt =====
-- prefetcher.go: the queue that Submit fills and what a worker does with a job. A handler is a function from
-- requests to the calls that it makes; one that panics has made the calls in front of its panic.
pub mod Safety
pub mod Queue
pub mod Pool
mod Runs
use cache_predict.Common.{
  ℕ, suc, ◌+◌, ◌-◌, ◌*◌, ◌^◌, ◌<◌, ◌≡◌, Bool, true, false, not, ◌&&◌, ◌||◌, Option, none, some,
  List, [], ◌∷◌, ◌++◌, ltb, leb, ◌==◌, if◌then◌else◌, length,
}
use cache_predict.Common.Int.{ℤ, pos, negsuc, later_by}
use cache_predict.Common.Words.{Bytes}
use cache_predict.Common.Dict.{Dict, insert, bytes_key}
use cache_predict.Common.Text.{codes, is_empty, contains, split_once, to_upper}
use cache_predict.Dense.Ops.{Prediction}
use cache_predict.Entry.{ResponseEntry}
use cache_predict.Http
use cache_predict.Http.{Header}
use cache_predict.Normalizer.{canonical_cache_key_with_host}
use cache_predict.Request.{Request, Cookie}
use cache_predict.Store.{Store, expiry_after}
use cache_predict.Vary.{extract_vary_map}
use cache_predict.Writer.{Client, Call, run_client, first_status}
use cache_predict.ClientAssets.{is_unhydrated}

-- A float64 that is compared with probabilities, as the fraction `num / den`.
pub record Fraction : Type 0 where
  pub num : ℤ
  pub den : ℕ

pub record PrefetchJob : Type 0 where
  pub session_id : Bytes
  pub prediction : Prediction
  pub host : Bytes
  pub auth_headers : Header
  pub cookies : List Cookie
  pub is_auth : Bool

-- `queue` is what the channel holds; `is_auth` is nil until SetAuthChecker. Close sets the flag and
-- cancels the context at once.
pub record Prefetcher : Type 0 where
  pub has_handler : Bool
  pub queue : List PrefetchJob
  pub threshold : Fraction
  pub ttl : ℤ
  pub is_auth : Option (Request → Bool)
  pub closed : Bool

-- The channel's capacity.
abbrev pub queue_cap : ℕ
queue_cap = 256

-- SetAuthChecker
unfoldable pub set_auth_checker : (Request → Bool) → Prefetcher → Prefetcher
set_auth_checker check p = record p { is_auth = some check }

-- `pred.Probability < p.threshold`, where the counter is an int that may be negative
unfoldable pub is_below : Prediction → Fraction → Bool
is_below p t =
    if ltb p.count (2 ^ 63)
    then elim t.num [ pos m ↦ ltb (p.count * t.den) (m * p.total) | negsuc m ↦ false ]
    else elim t.num [ pos m ↦ true | negsuc m ↦ ltb (suc m * p.total) ((2 ^ 64 - p.count) * t.den) ]

set_if_any : Header → Bytes → Header → Header
set_if_any from name h =
    let value = Http.get from name in if is_empty value then h else Http.set h name value

-- The credentials of the session's request.
unfoldable pub captured_headers : Header → Header
unfolding set_if_any
captured_headers from = set_if_any from (codes "Cookie") (
    set_if_any from (codes "X-API-Key") (
      set_if_any from (codes "X-Auth-Token") (
        set_if_any from (codes "Proxy-Authorization")
          (set_if_any from (codes "Authorization") []))))

unfoldable pub submits_as_auth : Prefetcher → Request → Bool
submits_as_auth p r = elim p.is_auth [
  | some check ↦ check r
  | none ↦
      not (is_empty (Http.get r.header (codes "Authorization")))
      || not (is_empty (Http.get r.header (codes "Proxy-Authorization")))
]

abbrev pub new_job : Bytes → Request → Bool → Prediction → PrefetchJob
new_job session_id r is_auth prediction = record {
  session_id = session_id;
  prediction = prediction;
  host = r.host;
  auth_headers = captured_headers r.header;
  cookies = r.cookies;
  is_auth = is_auth;
}

-- The loop: a prediction below the threshold is passed over, and one that finds the queue full is dropped.
unfoldable pub enqueue :
    Fraction → (Prediction → PrefetchJob) → List Prediction → List PrefetchJob → List PrefetchJob
enqueue threshold job [] queue = queue
enqueue threshold job (pred ∷ preds) queue = enqueue threshold job preds (
    if is_below pred threshold || leb queue_cap (length queue)
    then queue
    else queue ++ job pred ∷ [])

-- Submit
unfoldable pub submit : Bytes → List Prediction → Request → Prefetcher → Prefetcher
submit session_id preds r p = if not p.has_handler || p.closed then p else record p {
  queue = enqueue p.threshold (new_job session_id r (submits_as_auth p r)) preds p.queue;
}

-- What a job is to fetch: `none` where execute returns before it asks the store.
pub record Target : Type 0 where
  pub method : Bytes
  pub uri : Bytes
  pub path : Bytes
  pub raw_query : Bytes

-- strings.Index(targetURI, "?") and the two slices
unfoldable pub split_uri : Bytes → Bytes × Bytes
split_uri uri = elim (split_once b'?' uri) [ none ↦ (uri, []) | some parts ↦ parts ]

unfoldable pub target_of : Bytes → Option Target
target_of call = elim (split_once b' ' call) [
  | none ↦ none
  | some (verb, uri) ↦
      let method = to_upper verb in
      if not (bytes_key.same method (codes "GET")) && not (bytes_key.same method (codes "HEAD"))
      then none
      else if is_unhydrated uri
      then none
      else some (record {
        method = method;
        uri = uri;
        path = (split_uri uri).0;
        raw_query = (split_uri uri).1;
      })
]

copy_headers : Header → Header → Header
copy_headers [] h = h
copy_headers ((k, vv) ∷ more) h = copy_headers more (insert k vv h)

-- httptest's recorder: 200 unless the handler decides otherwise.
abbrev pub new_recorder : Client
new_recorder = record {
  header = [];
  status = none;
  sent = [];
  flushes = 0;
  is_flusher = true;
  is_hijacker = false;
}

abbrev pub recorded_code : Client → ℕ
recorded_code rec = first_status rec.status 200

-- The tests that a recorded response passes to be stored.
unfoldable pub may_store : PrefetchJob → Client → Bool
may_store job rec =
    let cc = Http.get rec.header (codes "Cache-Control") in
    (recorded_code rec == 200)
    && (not (contains cc (codes "no-store") || contains cc (codes "private"))
        && (leb (length (Http.values rec.header (codes "Set-Cookie"))) 0
            && (not (bytes_key.same (Http.get rec.header (codes "Vary")) (codes "*"))
                && (not (
                      job.is_auth
                      || (not (is_empty (Http.get job.auth_headers (codes "Authorization")))
                          || not
                              (is_empty (Http.get job.auth_headers (codes "Proxy-Authorization")))))
                    || contains cc (codes "public")))))

-- The times that the worker reads.
pub record Times : Type 0 where
  pub looked : ℕ
  pub checked : ℕ
  pub created : ℕ
  pub expiring : ℕ
  pub stored : ℕ

-- `new_request` is httptest.NewRequest for a method and a target, which gives nothing where it panics, as it
-- does with a target that is no request's; `add_cookie` is Request.AddCookie.
module _ (sum64 : Bytes → ℕ) (new_request : Bytes → Bytes → Option Request)
    (add_cookie : Cookie → Request → Request) {S : Type 0} (store : Store S)
    (handler : Request → List Call) where
  add_cookies : List Cookie → Request → Request
  add_cookies [] r = r
  add_cookies (c ∷ cookies) r = add_cookies cookies (add_cookie c r)

  -- What execFn makes of the new request.
  unfoldable pub dress : PrefetchJob → Request → Request
  unfolding copy_headers add_cookies
  dress job bare =
      let at_host = if is_empty job.host then bare else record bare { host = job.host } in
      let with_auth = record at_host { header = copy_headers job.auth_headers at_host.header } in
      let r = add_cookies job.cookies with_auth in
      record r { header = Http.set r.header (codes "X-Precog-Speculative") (codes "true") }

  unfoldable pub synthetic_request : PrefetchJob → Target → Option Request
  synthetic_request job target = elim (new_request target.method target.uri) [
    | none ↦ none
    | some bare ↦ some (dress job bare)
  ]

  abbrev pub job_key : PrefetchJob → Target → Bytes
  job_key job target =
      canonical_cache_key_with_host sum64 target.method job.host target.path target.raw_query []

  abbrev pub recorded_entry : Times → ℤ → Request → Client → ResponseEntry
  recorded_entry t ttl r rec = record {
    body = rec.sent;
    header = rec.header;
    content_type = Http.get rec.header (codes "Content-Type");
    status_code = recorded_code rec;
    created_at = t.created;
    expires_at = some (later_by t.expiring ttl);
    vary = extract_vary_map r.header (Http.get rec.header (codes "Vary"));
  }

  -- The handler's response to the request, stored where it may be: what execFn returns, the number of bytes
  -- that onWarmed is told where it is called, and the store.
  unfoldable pub warm :
      Times → ℤ → PrefetchJob → Target → Request → S → Option ResponseEntry × Option ℕ × S
  warm t ttl job target r s =
      let rec = run_client (handler r) new_recorder in
      if may_store job rec
      then (let (taken, entry, s') =
            store.set t.stored (job_key job target) (recorded_entry t ttl r rec) ttl s in
          (some entry, some (length rec.sent), s'))
      else (none, none, s)

  -- execFn; nothing where it panics.
  unfoldable pub exec_fn :
      Times → ℤ → PrefetchJob → Target → S → Option (Option ResponseEntry × Option ℕ × S)
  exec_fn t ttl job target s = elim (store.get t.checked (job_key job target) s) [
    | some cached ↦ some (some cached, none, s)
    | none ↦ elim (synthetic_request job target) [
      | none ↦ none
      | some r ↦ some (warm t ttl job target r s)
    ]
  ]

  -- execute, where the worker leads the call of its key or has no group; as a follower it waits and
  -- does nothing. It gives nothing where execFn panics: DoContext panics again, and nothing in the
  -- worker recovers.
  unfoldable pub execute : Times → Bool → ℤ → PrefetchJob → S → Option (Option ℕ × S)
  execute t leads ttl job s = elim (target_of job.prediction.call) [
    | none ↦ some (none, s)
    | some target ↦ elim (store.get t.looked (job_key job target) s) [
      | some cached ↦ some (none, s)
      | none ↦ elim leads [
        | false ↦ some (none, s)
        | true ↦ elim (exec_fn t ttl job target s) [
          | none ↦ none
          | some (result, warmed, s') ↦ some (warmed, s')
        ]
      ]
    ]
  ]

-- Close
unfoldable pub close : Prefetcher → Prefetcher
close p = record p { closed = true }
