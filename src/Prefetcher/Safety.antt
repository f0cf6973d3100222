-- ===== src/Prefetcher/Safety.antt =====
-- What a worker may do to the store, and what Submit puts into the queue.
use cache_predict.Common.{
  ℕ, ◌≡◌, ◌≢◌, ◌⊎◌, inl, inr, refl, Bool, true, false, Option, none, some, List, [], ==_iff, length,
  arith, Bool-cases, Option-cases,
}
use cache_predict.Common.Int.{ℤ}
use cache_predict.Common.Words.{Bytes}
use cache_predict.Common.Dict.{bytes_key}
use cache_predict.Common.Text.{codes, is_empty, contains, split_once, to_upper}
use cache_predict.ClientAssets.{is_unhydrated}
use cache_predict.Http
use cache_predict.Prefetcher.{
  PrefetchJob, Target, target_of, may_store, Times, execute, exec_fn, synthetic_request, dress,
  warm, recorded_entry, recorded_code, job_key, new_recorder,
}
use cache_predict.Request.{Request, Cookie}
use cache_predict.Store.{Store}
use cache_predict.Writer.{Client, Call, run_client}

-- A target that may be fetched at a guess.
pub record IsHarmless (target : Target) : Type 0 where
  pub safe : (target.method ≡ codes "GET") ⊎ (target.method ≡ codes "HEAD")
  pub hydrated : is_unhydrated target.uri ≡ false

-- A recorded response that anyone may be given.
pub record MayBeStored (job : PrefetchJob) (rec : Client) : Type 0 where
  pub ok : recorded_code rec ≡ 200
  pub may_keep : contains (Http.get rec.header (codes "Cache-Control")) (codes "no-store") ≡ false
  pub not_private : contains (Http.get rec.header (codes "Cache-Control")) (codes "private") ≡ false
  pub no_cookie : Http.values rec.header (codes "Set-Cookie") ≡ []
  pub can_vary : Http.get rec.header (codes "Vary") ≢ codes "*"
  pub for_all :
      ((job.is_auth ≡ false)
        × (is_empty (Http.get job.auth_headers (codes "Authorization")) ≡ true)
        × (is_empty (Http.get job.auth_headers (codes "Proxy-Authorization")) ≡ true))
      ⊎ (contains (Http.get rec.header (codes "Cache-Control")) (codes "public") ≡ true)

may_store-MayBeStored :
    (job : PrefetchJob) (rec : Client) → may_store job rec ≡ true → MayBeStored job rec
unfolding may_store
may_store-MayBeStored job rec e =
    let star = bytes_key.same_iff (Http.get rec.header (codes "Vary")) (codes "*") in
    record {
      ok = ground (arith, e, ==_iff (recorded_code rec) 200);
      may_keep = ground (arith, e);
      not_private = ground (arith, e);
      no_cookie = ground (arith, e);
      can_vary = λ same. ground (arith, e, star, same);
      for_all = ground (arith, e);
    }

target_of-IsHarmless :
    (call : Bytes) (target : Target) → target_of call ≡ some target → IsHarmless target
unfolding target_of
target_of-IsHarmless call target e = elim (Option-cases (split_once b' ' call)) [
  | inl q ↦ absurd (ground (arith, e, q))
  | inr (parts, q) ↦
      let get = bytes_key.same_iff (to_upper parts.0) (codes "GET") in
      let head = bytes_key.same_iff (to_upper parts.0) (codes "HEAD") in
      record { safe = ground (arith, e, q, get, head); hydrated = ground (arith, e, q) }
]

module _ (sum64 : Bytes → ℕ) (new_request : Bytes → Bytes → Option Request)
    (add_cookie : Cookie → Request → Request) {S : Type 0} (store : Store S)
    (handler : Request → List Call) (t : Times) (ttl : ℤ) (job : PrefetchJob) (s : S) where
  abbrev key_of : Target → Bytes
  key_of target = job_key sum64 new_request add_cookie store handler job target

  abbrev pub recorded : Request → Client
  recorded r = run_client (handler r) new_recorder

  -- What the worker has put into the store for a target and the request that it made for it.
  abbrev pub warmed_store : Target → Request → S
  warmed_store target r =
      (store.set t.stored (key_of target)
        (recorded_entry sum64 new_request add_cookie store handler t ttl r (recorded r)) ttl s).2

  -- No request can be made for the target.
  abbrev pub IsRefused : Target → Type 0
  IsRefused target = new_request target.method target.uri ≡ none

  -- The target's response has been stored and its length reported.
  abbrev pub IsWarmed : Target → Option (Option ℕ × S) → Type 0
  IsWarmed target out =
      (r : Request) × (bare : Request) × (new_request target.method target.uri ≡ some bare)
      × (r ≡ dress sum64 new_request add_cookie store handler job bare)
      × MayBeStored job (recorded r)
      × (out ≡ some (some (length (recorded r).sent), warmed_store target r))

  -- What a leader's function comes to, without its result.
  effect : Target → Option (Option ℕ × S)
  effect target = elim (exec_fn sum64 new_request add_cookie store handler t ttl job target s) [
    | none ↦ none
    | some (result, warmed, s') ↦ some (warmed, s')
  ]

  effect-cases :
      (target : Target)
      → (effect target ≡ some (none, s))
        ⊎ ((effect target ≡ none) × IsRefused target)
        ⊎ IsWarmed target (effect target)
  unfolding effect exec_fn synthetic_request warm
  effect-cases target = elim (Option-cases (store.get t.checked (key_of target) s)) [
    | inr (cached, e) ↦ inl (rw (effect, exec_fn, e) refl)
    | inl e ↦ elim (Option-cases (new_request target.method target.uri)) [
      | inl n ↦ inr (inl (rw (effect, exec_fn, e, n) refl, n))
      | inr (bare, n) ↦
          let r = dress sum64 new_request add_cookie store handler job bare in
          elim (Bool-cases (may_store job (recorded r))) [
            | inl may ↦ inr (
                inr (
                  r,
                  bare,
                  n,
                  refl,
                  may_store-MayBeStored job (recorded r) may,
                  rw (effect, exec_fn, e, n, may) refl,
                ))
            | inr may ↦ inl (rw (effect, exec_fn, e, n, may) refl)
          ]
    ]
  ]

  -- Whatever a job is, execute leaves the store as it was and reports nothing, or else: the job's call has a
  -- target with GET or HEAD and no placeholder, nothing was in the store under its key, and one of two. No
  -- request can be made for the target, and the worker panics. Or the response to the request that was made
  -- has status 200, no no-store, no private, no Set-Cookie and a Vary that is not `*`; the job's request was not
  -- taken for authenticated and the job has no Authorization and no Proxy-Authorization, or the response is
  -- public; the store is as Set leaves it, and the body's length is reported.
  pub execute_store :
      (leads : Bool)
      → let out = execute sum64 new_request add_cookie store handler t leads ttl job s in
        (out ≡ some (none, s))
        ⊎ ((target : Target) × (target_of job.prediction.call ≡ some target)
            × IsHarmless target
            × (store.get t.looked (key_of target) s ≡ none)
            × (((out ≡ none) × IsRefused target) ⊎ IsWarmed target out))
  unfolding execute effect
  execute_store leads = elim (Option-cases (target_of job.prediction.call)) [
    | inl e ↦ inl (rw (execute, e) refl)
    | inr (target, e) ↦ elim (Option-cases (store.get t.looked (key_of target) s)) [
      | inr (cached, f) ↦ inl (rw (execute, e, f) refl)
      | inl f ↦ elim (Bool-cases leads) [
        | inr follows ↦ inl (rw (execute, e, f, follows) refl)
        | inl leading ↦
            let harmless = target_of-IsHarmless job.prediction.call target e in
            elim (effect-cases target) [
              | inl same ↦ inl (rw (execute, e, f, leading) same)
              | inr (inl (stops, refused)) ↦
                  inr (target, e, harmless, f, inl (rw (execute, e, f, leading) stops, refused))
              | inr (inr (r, bare, n, made, may, stored)) ↦ inr (
                target,
                e,
                harmless,
                f,
                inr (r, bare, n, made, may, rw (execute, e, f, leading) stored),
              )
            ]
      ]
    ]
  ]
