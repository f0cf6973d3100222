-- ===== src/Prefetcher/Queue.antt =====
-- What Submit puts into the queue, and what its jobs carry.
use cache_predict.Common.{
  ℕ, zero, suc, ◌-◌, ◌≡◌, ◌∙◌, sym, inl, inr, refl, Bool, true, false, ◌||◌, not, List, [], ◌∷◌,
  ◌++◌, leb, length, length-append, append_assoc, append-nil, arith, Bool-cases, take,
  if◌then◌else◌,
}
use cache_predict.Common.Words.{Bytes}
use cache_predict.Common.Dict.{same_refl, bytes_key}
use cache_predict.Common.Text.{codes, is_empty}
use cache_predict.Dense.Ops.{Prediction}
use cache_predict.Http
use cache_predict.Http.{Header}
use cache_predict.Prefetcher.{
  Fraction, PrefetchJob, Prefetcher, is_below, enqueue, submit, queue_cap, new_job, submits_as_auth,
  captured_headers, set_if_any,
}
use cache_predict.Request.{Request}

-- The request headers that a job takes along.
pub data IsCredential : Bytes → Type 0 where
  authorization : IsCredential (codes "Authorization")
  proxy_authorization : IsCredential (codes "Proxy-Authorization")
  auth_token : IsCredential (codes "X-Auth-Token")
  api_key : IsCredential (codes "X-API-Key")
  cookie : IsCredential (codes "Cookie")

-- A job for the prediction on behalf of the request.
pub record IsJobOf (session_id : Bytes) (r : Request) (is_auth : Bool) (pred : Prediction)
    (j : PrefetchJob) : Type 0 where
  pub session : j.session_id ≡ session_id
  pub prediction : j.prediction ≡ pred
  pub host : j.host ≡ r.host
  pub cookies : j.cookies ≡ r.cookies
  pub auth : j.is_auth ≡ is_auth
  pub credentials :
      (name : Bytes) → IsCredential name → Http.get j.auth_headers name ≡ Http.get r.header name

-- One job for each of the predictions, in order.
abbrev pub AreJobsOf : Bytes → Request → Bool → List Prediction → List PrefetchJob → Type 0
AreJobsOf session_id r is_auth [] [] = Unit
AreJobsOf session_id r is_auth [] (j ∷ jobs) = ⊥
AreJobsOf session_id r is_auth (pred ∷ preds) [] = ⊥
AreJobsOf session_id r is_auth (pred ∷ preds) (j ∷ jobs) =
    IsJobOf session_id r is_auth pred j × AreJobsOf session_id r is_auth preds jobs

-- The predictions that are not below the threshold.
unfoldable pub worthwhile : Fraction → List Prediction → List Prediction
worthwhile threshold [] = []
worthwhile threshold (pred ∷ preds) =
    let rest = worthwhile threshold preds in if is_below pred threshold then rest else pred ∷ rest

-- Those of the predictions that Submit finds room for.
unfoldable pub accepted : Prefetcher → List Prediction → List Prediction
accepted p preds =
    if not p.has_handler || p.closed
    then []
    else take (queue_cap - length p.queue) (worthwhile p.threshold preds)

empty_text : (s : Bytes) → is_empty s ≡ true → s ≡ []
empty_text [] e = refl
empty_text (c ∷ s) e = absurd (cc)

-- Of a name that was not set before, what is there now is what the other map has.
captured_name :
    (from h : Header) (name : Bytes)
    → Http.get h name ≡ []
    → Http.get (set_if_any from name h) name ≡ Http.get from name
unfolding set_if_any
captured_name from h name e = elim (Bool-cases (is_empty (Http.get from name))) [
  | inl f ↦ rw (set_if_any, f) (e ∙ sym (empty_text (Http.get from name) f))
  | inr f ↦ rw (set_if_any, f, Http.get-set, same_refl (Http.canonical_key name)) refl
]

other_name :
    (from h : Header) (name other : Bytes)
    → bytes_key.same (Http.canonical_key name) (Http.canonical_key other) ≡ false
    → Http.get (set_if_any from name h) other ≡ Http.get h other
unfolding set_if_any
other_name from h name other e = elim (Bool-cases (is_empty (Http.get from name))) [
  | inl f ↦ rw (set_if_any, f) refl
  | inr f ↦ rw (set_if_any, f, Http.get-set, e) refl
]

abbrev with_authorization : Header → Header
with_authorization from = set_if_any from (codes "Authorization") []

abbrev with_proxy_authorization : Header → Header
with_proxy_authorization from =
    set_if_any from (codes "Proxy-Authorization") (with_authorization from)

abbrev with_auth_token : Header → Header
with_auth_token from = set_if_any from (codes "X-Auth-Token") (with_proxy_authorization from)

abbrev with_api_key : Header → Header
with_api_key from = set_if_any from (codes "X-API-Key") (with_auth_token from)

captured_headers_credentials :
    (from : Header) (name : Bytes)
    → IsCredential name
    → Http.get (captured_headers from) name ≡ Http.get from name
unfolding captured_headers Http.canonical_key Http.get
captured_headers_credentials from name authorization =
    other_name from (with_api_key from) (codes "Cookie") (codes "Authorization") refl
    ∙ other_name from (with_auth_token from) (codes "X-API-Key") (codes "Authorization") refl
    ∙ other_name from (with_proxy_authorization from) (codes "X-Auth-Token") (codes "Authorization")
        refl
    ∙ other_name from (with_authorization from) (codes "Proxy-Authorization")
        (codes "Authorization") refl
    ∙ captured_name from [] (codes "Authorization") refl
captured_headers_credentials from name proxy_authorization =
    other_name from (with_api_key from) (codes "Cookie") (codes "Proxy-Authorization") refl
    ∙ other_name from (with_auth_token from) (codes "X-API-Key") (codes "Proxy-Authorization") refl
    ∙ other_name from (with_proxy_authorization from) (codes "X-Auth-Token")
        (codes "Proxy-Authorization") refl
    ∙ captured_name from (with_authorization from) (codes "Proxy-Authorization")
        (other_name from [] (codes "Authorization") (codes "Proxy-Authorization") refl)
captured_headers_credentials from name auth_token =
    other_name from (with_api_key from) (codes "Cookie") (codes "X-Auth-Token") refl
    ∙ other_name from (with_auth_token from) (codes "X-API-Key") (codes "X-Auth-Token") refl
    ∙ captured_name from (with_proxy_authorization from) (codes "X-Auth-Token") (
        other_name from (with_authorization from) (codes "Proxy-Authorization")
          (codes "X-Auth-Token") refl
        ∙ other_name from [] (codes "Authorization") (codes "X-Auth-Token") refl)
captured_headers_credentials from name api_key =
    other_name from (with_api_key from) (codes "Cookie") (codes "X-API-Key") refl
    ∙ captured_name from (with_auth_token from) (codes "X-API-Key") (
        other_name from (with_proxy_authorization from) (codes "X-Auth-Token") (codes "X-API-Key")
          refl
        ∙ other_name from (with_authorization from) (codes "Proxy-Authorization")
            (codes "X-API-Key") refl
        ∙ other_name from [] (codes "Authorization") (codes "X-API-Key") refl)
captured_headers_credentials from name cookie =
    captured_name from (with_api_key from) (codes "Cookie") (
      other_name from (with_auth_token from) (codes "X-API-Key") (codes "Cookie") refl
      ∙ other_name from (with_proxy_authorization from) (codes "X-Auth-Token") (codes "Cookie") refl
      ∙ other_name from (with_authorization from) (codes "Proxy-Authorization") (codes "Cookie")
          refl
      ∙ other_name from [] (codes "Authorization") (codes "Cookie") refl)

new_job-IsJobOf :
    (session_id : Bytes) (r : Request) (is_auth : Bool) (pred : Prediction)
    → IsJobOf session_id r is_auth pred (new_job session_id r is_auth pred)
new_job-IsJobOf session_id r is_auth pred = record {
  session = refl;
  prediction = refl;
  host = refl;
  cookies = refl;
  auth = refl;
  credentials = captured_headers_credentials r.header;
}

module _ (session_id : Bytes) (r : Request) (is_auth : Bool) (threshold : Fraction) where
  -- The queue has grown by the jobs of the first `room` worthwhile predictions.
  Enqueued : ℕ → List Prediction → List PrefetchJob → List PrefetchJob → Type 0
  Enqueued room preds queue queue' =
      (jobs : List PrefetchJob) × (queue' ≡ queue ++ jobs)
      × AreJobsOf session_id r is_auth (take room (worthwhile threshold preds)) jobs

  one_more :
      (room : ℕ) (pred : Prediction) (preds : List Prediction) (queue queue' : List PrefetchJob)
      → Enqueued room preds (queue ++ new_job session_id r is_auth pred ∷ []) queue'
      → (jobs : List PrefetchJob) × (queue' ≡ queue ++ jobs)
        × AreJobsOf session_id r is_auth (pred ∷ take room (worthwhile threshold preds)) jobs
  unfolding Enqueued
  one_more room pred preds queue queue' (jobs, grown, all) = (
    new_job session_id r is_auth pred ∷ jobs,
    grown ∙ append_assoc queue (new_job session_id r is_auth pred ∷ []) jobs,
    (new_job-IsJobOf session_id r is_auth pred, all),
  )

  enqueue-Enqueued :
      (preds : List Prediction) (queue : List PrefetchJob) (room : ℕ)
      → queue_cap - length queue ≡ room
      → Enqueued room preds queue (enqueue threshold (new_job session_id r is_auth) preds queue)
  unfolding enqueue worthwhile Enqueued
  enqueue-Enqueued [] queue zero e = ([], sym (append-nil queue), tt)
  enqueue-Enqueued [] queue (suc room) e = ([], sym (append-nil queue), tt)
  enqueue-Enqueued (pred ∷ preds) queue zero e =
      let (jobs, grown, all) = enqueue-Enqueued preds queue zero e in
      let full : leb queue_cap (length queue) ≡ true = ground (arith, e) in
      (
        jobs,
        rw (passed_over (is_below pred threshold) (leb queue_cap (length queue)) full) grown,
        all,
      )
    where
      passed_over : (b c : Bool) → c ≡ true → (b || c) ≡ true
      passed_over b c h = ground (arith, h)
  enqueue-Enqueued (pred ∷ preds) queue (suc room) e = elim (Bool-cases (is_below pred threshold)) [
    | inl below ↦ rw (below) (enqueue-Enqueued preds queue (suc room) e)
    | inr above ↦
        let more = queue ++ new_job session_id r is_auth pred ∷ [] in
        let loose : leb queue_cap (length queue) ≡ false = ground (arith, e) in
        let less : queue_cap - length more ≡ room =
          omega (arith, e, length-append queue (new_job session_id r is_auth pred ∷ [])) in
        rw (above, loose)
          (one_more room pred preds queue
            (enqueue threshold (new_job session_id r is_auth) preds more)
            (enqueue-Enqueued preds more room less))
  ]

-- Submit, with nothing taken out of the queue and no call of Close in between: the jobs that wait stay in
-- front, and behind them stands one job for each of the predictions that are accepted, in order: none without
-- a handler or behind Close, or else the first of those not below the threshold, as many as the channel has room for.
-- Each job has the session, its prediction, and the request's host, cookies and five credential headers, and
-- says whether the request is taken for authenticated.
pub submit-AreJobsOf :
    (session_id : Bytes) (preds : List Prediction) (r : Request) (p : Prefetcher)
    → (jobs : List PrefetchJob) × ((submit session_id preds r p).queue ≡ p.queue ++ jobs)
      × AreJobsOf session_id r (submits_as_auth p r) (accepted p preds) jobs
unfolding submit accepted Enqueued
submit-AreJobsOf session_id preds r p = elim (Bool-cases (not p.has_handler || p.closed)) [
  | inl off ↦ rw (off) ([], sym (append-nil p.queue), tt)
  | inr on ↦ rw (on) (
      enqueue-Enqueued session_id r (submits_as_auth p r) p.threshold preds p.queue
        (queue_cap - length p.queue) refl)
]
