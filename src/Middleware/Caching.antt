-- ===== src/Middleware/Caching.antt =====
-- What a request leaves in the store.
use cache_predict.Common.{
  ℕ, ◌≡◌, ◌≢◌, ◌⊎◌, inl, inr, refl, ◌∙◌, ap, true, false, not, ◌&&◌, none, some, List, [], ==_iff,
  arith, Bool-cases, Option-cases,
}
use cache_predict.Common.Words.{Bytes}
use cache_predict.Common.Dict.{bytes_key}
use cache_predict.Common.Text.{codes, is_empty, contains}
use cache_predict.ClientAssets.{Assets}
use cache_predict.Entry.{ResponseEntry}
use cache_predict.Http
use cache_predict.Middleware.{
  HttpCookie, Predictor, Clock, Ask, Served, can_cache, new_entry, ask, find_cached, put_entry,
  visit, visit_and_prefetch, trigger_prefetch,
}
use cache_predict.Middleware.Leader.{led, leader_cached, leader_left, leader_shares, leader_keeps}
use cache_predict.Middleware.Paths.{
  opened, asked, opened_engine, IsCacheable, serve-cases, serve_cacheable-hit, serve_cacheable-miss,
}
use cache_predict.Middleware.Serve.{
  take_part, Role, leads, follows, has_left, upstream, capture, direct, share, serve_own,
  finish_follower, miss, hit, looked_up, serve_cacheable, pass_through, serve, coalesce_key,
}
use cache_predict.Request.{Request}
use cache_predict.Store.{Store}
use cache_predict.Telemetry.{record_hit, record_miss}
use cache_predict.Writer.{Client, CapturingResponseWriter, Call, status_of, run_client}

-- A response that RFC 9111 lets a shared cache keep, by the middleware's reading of it.
pub record MayBeShared (a : Ask) (rec : CapturingResponseWriter) : Type 0 where
  pub ok : status_of rec ≡ 200
  pub no_cookie : Http.values rec.header (codes "Set-Cookie") ≡ []
  pub may_keep : contains (Http.get rec.header (codes "Cache-Control")) (codes "no-store") ≡ false
  pub not_private : contains (Http.get rec.header (codes "Cache-Control")) (codes "private") ≡ false
  pub can_vary : Http.get rec.header (codes "Vary") ≢ codes "*"
  pub for_all :
      (a.is_auth ≡ false)
      ⊎ ((a.is_public ≡ true)
          ⊎ (contains (Http.get rec.header (codes "Cache-Control")) (codes "public") ≡ true))
  pub wanted : a.no_store ≡ false
  pub whole : has_left rec ≡ false

pub can_cache-MayBeShared :
    (a : Ask) (rec : CapturingResponseWriter)
    → (can_cache a rec && not a.no_store) ≡ true
    → has_left rec ≡ false
    → MayBeShared a rec
unfolding can_cache
can_cache-MayBeShared a rec e whole =
    let star = bytes_key.same_iff (Http.get rec.header (codes "Vary")) (codes "*") in
    record {
      ok = ground (arith, e, ==_iff (status_of rec) 200);
      no_cookie = ground (arith, e);
      may_keep = ground (arith, e);
      not_private = ground (arith, e);
      can_vary = λ same. ground (arith, e, star, same);
      for_all = ground (arith, e);
      wanted = ground (arith, e);
      whole = whole;
    }

module _ (sum64 : Bytes → ℕ) {S P : Type 0} (store : Store S) (predictor : Predictor P)
    (next : Request → List Call) where
  visit-store : (a : Ask) (s : Served S P) → (visit predictor a s).e.store ≡ s.e.store
  unfolding visit
  visit-store a s = ground arith

  visit_and_prefetch-store :
      (a : Ask) (s : Served S P) → (visit_and_prefetch predictor a s).e.store ≡ s.e.store
  unfolding visit_and_prefetch trigger_prefetch visit
  visit_and_prefetch-store a s = ground arith

  -- The store is as it was, or the response may be shared and the store is as Set leaves it.
  pub KeepsOrStores : Clock → Ask → Served S P → S → Type 0
  KeepsOrStores t a s left =
      (left ≡ s.e.store)
      ⊎ (MayBeShared a (upstream sum64 store predictor next a s)
          × (left
              ≡ (put_entry sum64 store t s.e.config.ttl a
                  (new_entry t s.e.config.ttl a.r (upstream sum64 store predictor next a s))
                  s.e.store).1))

  module _ (t : Clock) (a : Ask) (s : Served S P) where
    abbrev rec : CapturingResponseWriter
    rec = upstream sum64 store predictor next a s

    abbrev captured : ResponseEntry × Served S P
    captured = capture sum64 store predictor next t a rec s

    capture-KeepsOrStores : has_left rec ≡ false → KeepsOrStores t a s captured.1.e.store
    unfolding KeepsOrStores capture
    capture-KeepsOrStores whole = elim (Bool-cases (can_cache a rec && not a.no_store)) [
      | inl e ↦ inr (can_cache-MayBeShared a rec e whole, rw (capture, e) refl)
      | inr e ↦ inl (rw (capture, e) refl)
    ]

    direct-KeepsOrStores : KeepsOrStores t a s (direct sum64 store predictor next t a s).e.store
    unfolding direct KeepsOrStores
    direct-KeepsOrStores = elim (Bool-cases (has_left rec)) [
      | inl e ↦ rw (e) (inl (visit-store a (record s { w = rec.w })))
      | inr e ↦ rw (e, visit_and_prefetch-store a captured.1) (capture-KeepsOrStores e)
    ]

    unchanged : KeepsOrStores t a s s.e.store
    unfolding KeepsOrStores
    unchanged = inl refl

    visit-KeepsOrStores :
        (w : Client) → KeepsOrStores t a s (visit predictor a (record s { w = w })).e.store
    visit-KeepsOrStores w = rw (visit-store a (record s { w = w })) unchanged

    share-KeepsOrStores :
        (entry : ResponseEntry) (x : Served S P)
        → KeepsOrStores t a s x.e.store
        → KeepsOrStores t a s (share sum64 store predictor next a entry x).e.store
    unfolding share
    share-KeepsOrStores entry x k = rw (visit_and_prefetch-store a x) k

    serve_own-KeepsOrStores :
        (entry : ResponseEntry) (x : Served S P)
        → KeepsOrStores t a s x.e.store
        → KeepsOrStores t a s (serve_own sum64 store predictor next a entry x).e.store
    unfolding serve_own
    serve_own-KeepsOrStores entry x k = rw (visit_and_prefetch-store a x) k

    led-KeepsOrStores : KeepsOrStores t a s (led sum64 store predictor next t a s).e.store
    led-KeepsOrStores =
        elim (Option-cases (find_cached sum64 store t.checked t.checked_vary a s.e.store)) [
          | inr (cached, e) ↦
              rw (leader_cached sum64 store predictor next t a s cached e)
                (share-KeepsOrStores cached s unchanged)
          | inl e ↦ elim (Bool-cases (has_left rec)) [
            | inl left ↦
                rw (leader_left sum64 store predictor next t a s e left) (visit-KeepsOrStores rec.w)
            | inr whole ↦ elim (Bool-cases (can_cache a rec && not a.no_store)) [
              | inl can ↦
                  rw (leader_shares sum64 store predictor next t a s e whole can)
                    (share-KeepsOrStores captured.0 captured.1 (capture-KeepsOrStores whole))
              | inr cannot ↦
                  rw (leader_keeps sum64 store predictor next t a s e whole cannot)
                    (serve_own-KeepsOrStores captured.0 captured.1 (capture-KeepsOrStores whole))
            ]
          ]
        ]

    take_part-KeepsOrStores :
        (role : Role)
        → KeepsOrStores t a s (take_part sum64 store predictor next t role a s).e.store
    unfolding finish_follower
    take_part-KeepsOrStores leads = led-KeepsOrStores
    take_part-KeepsOrStores (follows (some entry) none) = share-KeepsOrStores entry s unchanged
    take_part-KeepsOrStores (follows none none) = direct-KeepsOrStores
    take_part-KeepsOrStores (follows entry (some err)) = direct-KeepsOrStores

  -- Counting a miss changes neither the store nor what the handler answers.
  missed : Served S P → Served S P
  missed s = record s { e = record s.e { telemetry = record_miss s.e.telemetry } }

  miss-KeepsOrStores :
      (t : Clock) (role : Role) (a : Ask) (s : Served S P)
      → KeepsOrStores t a s (miss sum64 store predictor next t role a s).e.store
  unfolding miss missed KeepsOrStores
  miss-KeepsOrStores t role a s =
      elim (Bool-cases (is_empty (coalesce_key sum64 store predictor next a s.e))) [
        | inl e ↦ rw (e) (direct-KeepsOrStores t a (missed s))
        | inr e ↦ rw (e) (take_part-KeepsOrStores t a (missed s) role)
      ]

  serve_cacheable-KeepsOrStores :
      (t : Clock) (role : Role) (a : Ask) (s : Served S P)
      → KeepsOrStores t a s (serve_cacheable sum64 store predictor next t role a s).e.store
  unfolding hit
  serve_cacheable-KeepsOrStores t role a s =
      elim (Option-cases (looked_up sum64 store predictor next t a s)) [
        | inl e ↦
            rw (serve_cacheable-miss sum64 store predictor next t role a s e)
              (miss-KeepsOrStores t role a s)
        | inr (entry, e) ↦
            rw
              (
                serve_cacheable-hit sum64 store predictor next t role a s entry e,
                visit_and_prefetch-store a
                    (record s { e = record s.e { telemetry = record_hit s.e.telemetry } }),
              )
              (unchanged t a s)
      ]

  -- Whatever a request is, serving it leaves the store as it was, or else: the path is no skipped
  -- route, the method is GET or HEAD, the request is no upgrade, event stream or range and has no
  -- no-store; the response was captured whole and has status 200, no Set-Cookie, no no-store, no
  -- private and a Vary that is not `*`; the request is not authenticated, its route is public or the
  -- response is; and the store is as Set leaves it with the entry of this response.
  pub serve_store :
      (assets : Assets) (new_session : Bytes) (set_cookie : HttpCookie → Client → Client)
      (r : Request) (s : Served S P) (t : Clock) (role : Role)
      → let a = asked sum64 store predictor next assets new_session set_cookie r s in
        let s' = (opened sum64 store predictor next assets new_session set_cookie r s).1 in
        let out = serve sum64 store predictor next assets new_session set_cookie t role r s in
        (out.e.store ≡ s.e.store)
        ⊎ (IsCacheable sum64 store predictor next assets new_session set_cookie r s
            × MayBeShared a (upstream sum64 store predictor next a s')
            × (out.e.store
                ≡ (put_entry sum64 store t s.e.config.ttl a
                    (new_entry t s.e.config.ttl r (upstream sum64 store predictor next a s'))
                    s.e.store).1))
  unfolding pass_through KeepsOrStores ask
  serve_store assets new_session set_cookie r s t role =
      let a = asked sum64 store predictor next assets new_session set_cookie r s in
      let s' = (opened sum64 store predictor next assets new_session set_cookie r s).1 in
      let same = opened_engine sum64 store predictor next assets new_session set_cookie r s in
      elim (serve-cases sum64 store predictor next assets new_session set_cookie r s t role) [
        | inl (w, e, is_asset) ↦ inl (ap (λ x. x.e.store) is_asset)
        | inr (inl skipped) ↦ inl (ap (λ x. x.e.store) skipped)
        | inr (inr (inl passed)) ↦
            inl (ap (λ x. x.e.store) passed ∙ visit-store a (passing a s') ∙ ap (λ x. x.store) same)
        | inr (inr (inr (cacheable, e))) ↦ elim (serve_cacheable-KeepsOrStores t role a s') [
          | inl k ↦ inl (ap (λ x. x.e.store) e ∙ k ∙ ap (λ x. x.store) same)
          | inr (m, k) ↦ inr (
            cacheable,
            m,
            ap (λ x. x.e.store) e
                ∙ k
                ∙ ap
                    (λ x.
                      (put_entry sum64 store t x.config.ttl a
                        (new_entry t x.config.ttl r (upstream sum64 store predictor next a s'))
                        x.store).1)
                    same,
          )
        ]
      ]
    where
      passing : Ask → Served S P → Served S P
      passing a s' = record s' {
        w =
            run_client (next a.r)
              (record s'.w { header = Http.set s'.w.header (codes "X-Cache") (codes "MISS") });
      }
