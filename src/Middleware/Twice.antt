-- ===== src/Middleware/Twice.antt =====
-- Two requests one behind the other: what the second gets of the first one's response.
use cache_predict.Common.{
  ℕ, ◌≡◌, ◌⊎◌, ◌∙◌, inl, inr, refl, ap, sym, subst, Bool, true, false, none, some, List, ◌++◌,
  arith, if◌then◌else◌,
}
use cache_predict.Common.Int.{ℤ}
use cache_predict.Common.Words.{Bytes}
use cache_predict.Common.Text.{codes, split}
use cache_predict.ClientAssets.{Assets, serve_client_assets}
use cache_predict.Entry.{ResponseEntry}
use cache_predict.Http
use cache_predict.Middleware.{
  HttpCookie, Predictor, Clock, Ask, Served, new_entry, put_entry, find_cached, shares, ask, visit,
  trigger_prefetch, visit_and_prefetch,
}
use cache_predict.Middleware.Caching.{serve_store}
use cache_predict.Middleware.Paths.{
  opened, asked, opened_engine, IsCacheable, serve_cacheable-hit, as_cacheable,
}
use cache_predict.Middleware.Replies.{opened-sent}
use cache_predict.Middleware.Sent.{write_response-sent, visit_and_prefetch-sent}
use cache_predict.Middleware.Serve.{Role, serve, upstream, hit, looked_up}
use cache_predict.Middleware.Warm.{Agree, find_cached-put_entry}
use cache_predict.Request.{Request}
use cache_predict.Store.{MemoryStore, memory_store, is_over, expiry_after}
use cache_predict.Store.Laws.{memory_set-body}
use cache_predict.Telemetry.{record_hit}
use mathlib.Core.Path.{subst₂}
use cache_predict.Writer.{Client, Call, CapturingResponseWriter}

module _ {S P : Type 0} (predictor : Predictor P) where
  visit_and_prefetch-telemetry :
      (a : Ask) (s : Served S P) → (visit_and_prefetch predictor a s).e.telemetry ≡ s.e.telemetry
  unfolding visit_and_prefetch trigger_prefetch visit
  visit_and_prefetch-telemetry a s = ground arith

new_entry-body :
    (t : Clock) (ttl : ℤ) (r : Request) (rec : CapturingResponseWriter)
    → (new_entry t ttl r rec).body ≡ rec.buf
unfolding new_entry
new_entry-body t ttl r rec = refl

module _ (sum64 : Bytes → ℕ) {P : Type 0} (predictor : Predictor P) (assets : Assets)
    (set_cookie : HttpCookie → Client → Client)
    (set_cookie-sent : (cookie : HttpCookie) (w : Client)
      → (set_cookie cookie w).sent ≡ w.sent) where
  looked_up-found :
      (next : Request → List Call) (t : Clock) (a : Ask) (s x : Served MemoryStore P)
      (entry : ResponseEntry)
      → x.e ≡ s.e
      → a.no_cache ≡ false
      → find_cached sum64 memory_store t.looked t.looked_vary a s.e.store ≡ some entry
      → looked_up sum64 memory_store predictor next t a x ≡ some entry
  looked_up-found next t a s x entry same asks found =
      ap
        (λ (b : Bool).
          if b then none else find_cached sum64 memory_store t.looked t.looked_vary a x.e.store)
        asks
      ∙ ap (λ e. find_cached sum64 memory_store t.looked t.looked_vary a e.store) same
      ∙ found

  asked-r :
      (next : Request → List Call) (new_session : Bytes) (r : Request) (s : Served MemoryStore P)
      → (asked sum64 memory_store predictor next assets new_session set_cookie r s).r ≡ r
  unfolding ask
  asked-r next new_session r s = refl

  -- What the hit path does for a request whose entry is there.
  served_hit :
      (next : Request → List Call) (new_session : Bytes) (r : Request) (s : Served MemoryStore P)
      (t : Clock) (role : Role) (entry : ResponseEntry)
      → serve_client_assets assets r.path s.w ≡ none
      → IsCacheable sum64 memory_store predictor next assets new_session set_cookie r s
      → (asked sum64 memory_store predictor next assets new_session set_cookie r s).no_cache ≡ false
      → find_cached sum64 memory_store t.looked t.looked_vary
          (asked sum64 memory_store predictor next assets new_session set_cookie r s)
          s.e.store
        ≡ some entry
      → let out =
          serve sum64 memory_store predictor next assets new_session set_cookie t role r s in
        (out.w.sent ≡ s.w.sent ++ entry.body) × (out.e.telemetry ≡ record_hit s.e.telemetry)
  unfolding hit
  served_hit next new_session r s t role entry no_asset (goes, safe, bypass) asks found =
      let a = asked sum64 memory_store predictor next assets new_session set_cookie r s in
      let s' = (opened sum64 memory_store predictor next assets new_session set_cookie r s).1 in
      let engine =
        opened_engine sum64 memory_store predictor next assets new_session set_cookie r s in
      let is_hit =
        as_cacheable sum64 memory_store predictor next assets new_session set_cookie r s t role
          no_asset goes (rw (safe, bypass) refl)
        ∙ serve_cacheable-hit sum64 memory_store predictor next t role a s' entry
            (looked_up-found next t a s s' entry engine asks found) in
      let kept =
        opened-sent sum64 memory_store predictor next memory_set-body assets new_session set_cookie
          set_cookie-sent r s in
      (
        ap (λ x. x.w.sent) is_hit
            ∙ write_response-sent entry _
            ∙ ap (λ x. x ++ entry.body) (visit_and_prefetch-sent predictor a _ ∙ kept),
        ap (λ x. x.e.telemetry) is_hit
            ∙ visit_and_prefetch-telemetry predictor a _
            ∙ ap (λ x. record_hit x.telemetry) engine,
      )

  -- The first request, with the application's handler of then, and the later one with any handler.
  module _ (next next' : Request → List Call) (new_session new_session' : Bytes) (r r' : Request)
      (s s' : Served MemoryStore P) (t t' : Clock) (role role' : Role) where
    abbrev first : Served MemoryStore P
    first = serve sum64 memory_store predictor next assets new_session set_cookie t role r s

    abbrev second : Served MemoryStore P
    second = serve sum64 memory_store predictor next' assets new_session' set_cookie t' role' r' s'

    abbrev asks : Ask
    asks = asked sum64 memory_store predictor next assets new_session set_cookie r s

    abbrev asks' : Ask
    asks' = asked sum64 memory_store predictor next' assets new_session' set_cookie r' s'

    -- The first request's response, as the application's handler wrote it.
    abbrev response : CapturingResponseWriter
    response =
        upstream sum64 memory_store predictor next asks
          (opened sum64 memory_store predictor next assets new_session set_cookie r s).1

    -- On MemoryStore, where SetCookie leaves the bytes that are sent: serving a request leaves the store as it
    -- was, or a later request that finds the store so is answered with the body of that request's
    -- response, counted as a hit, whatever the application's handler would do now: where the later request
    -- is no asset's, may be answered from the cache, asks neither for no-cache nor for no-store, has the
    -- same cache key and the same values under the names of the response's Vary, may be served the response (it is not
    -- authenticated, its route is public, or the response is), and looks while both records of the
    -- response are within their time.
    pub second-body :
        s'.e.store ≡ first.e.store
        → serve_client_assets assets r'.path s'.w ≡ none
        → IsCacheable sum64 memory_store predictor next' assets new_session' set_cookie r' s'
        → asks'.no_cache ≡ false
        → asks'.no_store ≡ false
        → asks'.key ≡ asks.key
        → Agree r.header r'.header (split b',' (Http.get response.header (codes "Vary")))
        → shares asks' (new_entry t s.e.config.ttl r response) ≡ true
        → is_over t'.looked (expiry_after t.stored s.e.config.ttl) ≡ false
        → is_over t'.looked_vary (expiry_after t.stored_vary s.e.config.ttl) ≡ false
        → (first.e.store ≡ s.e.store)
          ⊎ ((second.w.sent ≡ s'.w.sent ++ response.buf)
              × (second.e.telemetry ≡ record_hit s'.e.telemetry))
    second-body same no_asset cacheable wants keeps key agree may fresh fresh_vary =
        elim (serve_store sum64 memory_store predictor next assets new_session set_cookie r s t
          role) [
            | inl kept ↦ inl kept
            | inr (first_cacheable, shared, stored) ↦
                let is_r = asked-r next new_session r s in
                let is_r' = asked-r next' new_session' r' s' in
                let ttl = s.e.config.ttl in
                let there =
                  find_cached-put_entry sum64 t ttl asks asks' response s.e.store t'.looked
                    t'.looked_vary shared key
                    (subst₂
                      (λ (x y : Request).
                        Agree x.header y.header
                          (split b',' (Http.get response.header (codes "Vary"))))
                      (sym is_r) (sym is_r') agree)
                    (subst (λ (x : Request). shares asks' (new_entry t ttl x response) ≡ true)
                      (sym is_r) may)
                    fresh fresh_vary in
                let there_r =
                  subst
                    (λ (x : Request).
                      find_cached sum64 memory_store t'.looked t'.looked_vary asks'
                        (put_entry sum64 memory_store t ttl asks (new_entry t ttl x response)
                          s.e.store).1
                      ≡ some (new_entry t ttl x response))
                    is_r there in
                let (sent, told) =
                  served_hit next' new_session' r' s' t' role' (new_entry t ttl r response) no_asset
                    cacheable wants
                    (ap
                        (λ (x : MemoryStore).
                          find_cached sum64 memory_store t'.looked t'.looked_vary asks' x)
                        (same ∙ stored)
                      ∙ there_r) in
                inr (
                  sent ∙ ap (λ (x : Bytes). s'.w.sent ++ x) (new_entry-body t ttl r response),
                  told,
                )
          ]
