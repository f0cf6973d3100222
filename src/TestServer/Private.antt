-- ===== src/TestServer/Private.antt =====
-- What the engine does not keep of the test server's pages.
use cache_predict.Common.{
  ℕ, ◌<◌, ◌≡◌, ◌⊎◌, ◌∙◌, inl, inr, refl, ap, true, false, Option, some, List, [], ◌∷◌, arith,
  Bool-cases,
}
use cache_predict.Common.Int.{ℤ}
use cache_predict.Common.Words.{Bytes}
use cache_predict.Common.Dict.{bytes_key, insert, lookup}
use cache_predict.Common.Text.{codes, to_upper}
use cache_predict.ClientAssets.{Assets}
use cache_predict.Http
use cache_predict.Middleware.{HttpCookie, Predictor, Clock, Ask, Served, ask, is_safe}
use cache_predict.Middleware.Caching.{MayBeShared, serve_store}
use cache_predict.Middleware.Serve.{Role, serve}
use cache_predict.Request.{Request}
use cache_predict.Store.{Store}
use cache_predict.TestServer.{
  Page, checkout, private, Calls, write_json, serve_private, serve_checkout, site,
}
use cache_predict.Writer.{
  Client, CapturingResponseWriter, Call, set_header, write, pass, drain, commit, run, step,
  new_writer, status_of,
}

write-header : (b : Bytes) (c : CapturingResponseWriter) → (write b c).header ≡ c.header
unfolding write pass drain commit
write-header b c = ground arith

-- The cookie stays in the header behind the content type.
two_headers :
    (text : Bytes)
    → Http.values
        (Http.set
          (Http.set [] (codes "Set-Cookie") text)
          (codes "Content-Type")
          (codes "application/json"))
        (codes "Set-Cookie")
      ≡ text ∷ []
unfolding Http.values Http.set Http.canonical_key insert lookup
two_headers text = refl

cookie_kept :
    (text body : Bytes) (w : Client) (m : ℤ)
    → Http.values
        (run (set_header (codes "Set-Cookie") text ∷ write_json body) (new_writer w m)).header
        (codes "Set-Cookie")
      ≡ text ∷ []
unfolding run step write_json
cookie_kept text body w m =
    ap (λ h. Http.values h (codes "Set-Cookie"))
      (write-header body (
        step (set_header (codes "Content-Type") (codes "application/json"))
          (step (set_header (codes "Set-Cookie") text) (new_writer w m))))
    ∙ two_headers text

module _ (decimal : ℕ → Bytes) (body_length : Request → ℕ) (cookie_text : Bytes → Bytes → Bytes)
    (http_error : Bytes → ℕ → List Call) (stats_json : Calls → Bytes)
    (error_status : (message : Bytes) (code : ℕ) (w : Client) (m : ℤ)
      → 0 < code
      → status_of (run (http_error message code) (new_writer w m)) ≡ code)
    (route : Request → Option Page) (not_found : Request → List Call) (c : Calls) where
  abbrev handler : Request → List Call
  handler = site decimal body_length cookie_text http_error stats_json route not_found c

  abbrev private_calls : List Call
  private_calls = (serve_private decimal body_length cookie_text http_error stats_json c).0

  handler_private : (r : Request) → route r ≡ some private → handler r ≡ private_calls
  unfolding site
  handler_private r e = rw (e, site) refl

  handler_checkout :
      (r : Request)
      → route r ≡ some checkout
      → bytes_key.same r.method (codes "POST") ≡ false
      → handler r ≡ http_error (codes "POST required") 405
  unfolding site serve_checkout
  handler_checkout r e not_post = rw (e, site) (rw (not_post) refl)

  private_shared :
      (a : Ask) (w : Client) (m : ℤ)
      → route a.r ≡ some private
      → ¬ MayBeShared a (run (handler a.r) (new_writer w m))
  unfolding serve_private
  private_shared a w m e shared =
      let there =
        ap (λ l. Http.values (run l (new_writer w m)).header (codes "Set-Cookie"))
          (handler_private a.r e) in
      cc (shared.no_cookie, there, cookie_kept _ _ w m)

  checkout_shared :
      (a : Ask) (w : Client) (m : ℤ)
      → route a.r ≡ some checkout
      → bytes_key.same a.r.method (codes "POST") ≡ false
      → ¬ MayBeShared a (run (handler a.r) (new_writer w m))
  checkout_shared a w m e not_post shared =
      let there = ap (λ l. status_of (run l (new_writer w m))) (handler_checkout a.r e not_post) in
      absurd (
        omega (arith, shared.ok, there, error_status (codes "POST required") 405 w m (omega arith)))

  post_unsafe :
      (r : Request)
      → bytes_key.same r.method (codes "POST") ≡ true
      → is_safe (to_upper r.method) ≡ false
  unfolding to_upper
  post_unsafe r e = rw ((bytes_key.same_iff r.method (codes "POST")).0 e) refl

  module _ (sum64 : Bytes → ℕ) {S P : Type 0} (store : Store S) (predictor : Predictor P)
      (assets : Assets) (new_session : Bytes) (set_cookie : HttpCookie → Client → Client)
      (r : Request) (s : Served S P) (t : Clock) (role : Role) where
    abbrev left_store : S
    left_store =
        (serve sum64 store predictor handler assets new_session set_cookie t role r s).e.store

    -- Whatever requests for /api/private and /api/checkout are, by whatever method and whoever sends them, the
    -- engine of the test server leaves its store as it was when it has served one, where http.Error answers
    -- with the positive code that it is given.
    pub private_unstored :
        (route r ≡ some private) ⊎ (route r ≡ some checkout) → left_store ≡ s.e.store
    unfolding ask
    private_unstored page =
        elim (serve_store sum64 store predictor handler assets new_session set_cookie r s t role) [
          | inl kept ↦ kept
          | inr ((goes, safe, bypass), shared, stored) ↦ elim page [
            | inl e ↦ absurd (private_shared _ _ _ e shared)
            | inr e ↦ elim (Bool-cases (bytes_key.same r.method (codes "POST"))) [
              | inl post ↦ absurd (cc (post_unsafe r post, safe))
              | inr other ↦ absurd (checkout_shared _ _ _ e other shared)
            ]
          ]
        ]
