-- ===== src/Middleware/Paths.antt =====
-- The ways of a request through the handler.
use cache_predict.Common.{
  ℕ, ◌≡◌, ◌⊎◌, inl, inr, refl, true, false, not, ◌||◌, none, some, List, arith, Bool-cases,
  Option-cases,
}
use cache_predict.Common.Words.{Bytes}
use cache_predict.ClientAssets.{Assets, serve_client_assets}
use cache_predict.Engine.{any_prefix}
use cache_predict.Entry.{ResponseEntry}
use cache_predict.Middleware.{HttpCookie, Predictor, Clock, Ask, Served, is_safe, is_bypassed, ask}
use cache_predict.Middleware.Serve.{
  Role, miss, hit, looked_up, serve_cacheable, pass_through, open_session, serve,
}
use cache_predict.Request.{Request}
use cache_predict.Store.{Store}
use cache_predict.Writer.{Client, Call, run_client}

module _ (sum64 : Bytes → ℕ) {S P : Type 0} (store : Store S) (predictor : Predictor P)
    (next : Request → List Call) where
  module _ (t : Clock) (role : Role) (a : Ask) (s : Served S P) where
    pub serve_cacheable-hit :
        (entry : ResponseEntry)
        → looked_up sum64 store predictor next t a s ≡ some entry
        → serve_cacheable sum64 store predictor next t role a s
          ≡ hit sum64 store predictor next a entry s
    unfolding serve_cacheable
    serve_cacheable-hit entry e = rw (serve_cacheable, e) refl

    pub serve_cacheable-miss :
        looked_up sum64 store predictor next t a s ≡ none
        → serve_cacheable sum64 store predictor next t role a s
          ≡ miss sum64 store predictor next t role a s
    unfolding serve_cacheable
    serve_cacheable-miss e = rw (serve_cacheable, e) refl

  module _ (assets : Assets) (new_session : Bytes) (set_cookie : HttpCookie → Client → Client)
      (r : Request) (s : Served S P) where
    -- The session, the state with its cookie, and the request as the handler reads it.
    abbrev pub opened : Bytes × Served S P
    opened = open_session sum64 store predictor next new_session set_cookie r s

    abbrev pub asked : Ask
    asked = ask sum64 opened.1.e opened.0 r

    pub opened_engine : opened.1.e ≡ s.e
    unfolding open_session
    opened_engine = ground arith

    -- A request that may be answered from the cache.
    abbrev pub IsCacheable : Type 0
    IsCacheable =
        (any_prefix s.e.config.skip_routes r.path ≡ false)
        × (is_safe asked.method ≡ true)
        × (is_bypassed r.header ≡ false)

    module _ (t : Clock) (role : Role) where
      abbrev pub served : Served S P
      served = serve sum64 store predictor next assets new_session set_cookie t role r s

      as_asset :
          (w : Client)
          → serve_client_assets assets r.path s.w ≡ some w
          → served ≡ record s { w = w }
      unfolding serve
      as_asset w e = rw (serve, e) refl

      module _ (e : serve_client_assets assets r.path s.w ≡ none) where
        as_skipped :
            any_prefix s.e.config.skip_routes r.path ≡ true
            → served ≡ record s { w = run_client (next r) s.w }
        unfolding serve
        as_skipped skips = rw (serve, e, skips) refl

        as_passed :
            any_prefix s.e.config.skip_routes r.path ≡ false
            → (not (is_safe asked.method) || is_bypassed r.header) ≡ true
            → served ≡ pass_through sum64 store predictor next asked opened.1
        unfolding serve
        as_passed skips passes = rw (serve, e, skips, passes) refl

        pub as_cacheable :
            any_prefix s.e.config.skip_routes r.path ≡ false
            → (not (is_safe asked.method) || is_bypassed r.header) ≡ false
            → served ≡ serve_cacheable sum64 store predictor next t role asked opened.1
        unfolding serve
        as_cacheable skips passes = rw (serve, e, skips, passes) refl

      pub serve-cases :
          ((w : Client) × (serve_client_assets assets r.path s.w ≡ some w)
            × (served ≡ record s { w = w }))
          ⊎ ((served ≡ record s { w = run_client (next r) s.w })
              ⊎ ((served ≡ pass_through sum64 store predictor next asked opened.1)
                  ⊎ (IsCacheable
                      × (served
                          ≡ serve_cacheable sum64 store predictor next t role asked opened.1))))
      serve-cases = elim (Option-cases (serve_client_assets assets r.path s.w)) [
        | inr (w, e) ↦ inl (w, e, as_asset w e)
        | inl e ↦ elim (Bool-cases (any_prefix s.e.config.skip_routes r.path)) [
          | inl skips ↦ inr (inl (as_skipped e skips))
          | inr goes ↦ elim (Bool-cases (not (is_safe asked.method) || is_bypassed r.header)) [
            | inl passes ↦ inr (inr (inl (as_passed e goes passes)))
            | inr cached ↦ inr (
                inr
                  (inr ((goes, (either cached).0, (either cached).1), as_cacheable e goes cached)))
          ]
        ]
      ]
        where
          either :
              (not (is_safe asked.method) || is_bypassed r.header) ≡ false
              → (is_safe asked.method ≡ true) × (is_bypassed r.header ≡ false)
          either e = ground (arith, e)
