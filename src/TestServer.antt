-- ===== src/TestServer.antt =====
-- cmd/testserver/main.go: the handlers of the test server, as the calls that they make on the writer. Its mux
-- is `route`, which says what page a request is for, with `not_found` for the others. `decimal` is
-- what %d prints, `body_length` the number of bytes that io.ReadAll gets, `cookie_text` the text of the
-- cookie that http.SetCookie adds to the header, `http_error` http.Error, and `stats_json` the page of /stats.
-- The delays and the log are left out.
pub mod Private
mod Runs
use cache_predict.Common.{
  ℕ, ◌+◌, ◌*◌, ◌^◌, Bool, false, not, Option, none, some, List, [], ◌∷◌, ◌++◌, if◌then◌else◌,
}
use cache_predict.Common.Int.{pos}
use cache_predict.Common.Words.{Bytes}
use cache_predict.Common.Dict.{bytes_key}
use cache_predict.Common.Text.{codes}
use cache_predict.Engine.{Config}
use cache_predict.Markov
use cache_predict.Markov.{
  AdaptiveMarkovPredictor, new_adaptive_markov_predictor, seed_transition, forecast,
}
use cache_predict.Middleware.{Predictor}
use cache_predict.Request.{Request}
use cache_predict.Writer.{Call, set_header, write_call}

pub data Page : Type 0 where
  product cart checkout private slow stats : Page

pub record Calls : Type 0 where
  pub calls_product : ℕ
  pub calls_cart : ℕ
  pub calls_checkout : ℕ
  pub calls_private : ℕ
  pub calls_slow : ℕ

unfoldable pub write_json : Bytes → List Call
write_json body =
    set_header (codes "Content-Type") (codes "application/json") ∷ write_call body ∷ []

module _ (decimal : ℕ → Bytes) (body_length : Request → ℕ) (cookie_text : Bytes → Bytes → Bytes)
    (http_error : Bytes → ℕ → List Call) (stats_json : Calls → Bytes) where
  unfoldable pub serve_product : Calls → List Call × Calls
  serve_product c = (
    write_json (codes "{\"id\":42,\"name\":\"Skirt\",\"price\":49.99}"),
    record c { calls_product = c.calls_product + 1 },
  )

  unfoldable pub serve_cart : Calls → List Call × Calls
  serve_cart c = (
    write_json (codes "{\"cart\":\"active\",\"items\":0}"),
    record c { calls_cart = c.calls_cart + 1 },
  )

  unfoldable pub serve_checkout : Request → Calls → List Call × Calls
  serve_checkout r c =
      let n = c.calls_checkout + 1 in
      if not (bytes_key.same r.method (codes "POST"))
      then (http_error (codes "POST required") 405, c)
      else (
        write_json (
            codes "{\"status\":\"checked_out\",\"bytes\":"
            ++ (decimal (body_length r) ++ (codes ",\"call\":" ++ (decimal n ++ codes "}")))),
        record c { calls_checkout = n },
      )

  unfoldable pub serve_private : Calls → List Call × Calls
  serve_private c =
      let n = c.calls_private + 1 in
      (
        set_header (codes "Set-Cookie")
              (cookie_text (codes "session") (codes "token-" ++ decimal n))
            ∷ write_json (codes "{\"token\":\"token-" ++ (decimal n ++ codes "\"}")),
        record c { calls_private = n },
      )

  unfoldable pub serve_slow : Calls → List Call × Calls
  serve_slow c = (write_json (codes "{\"slow\":true}"), record c { calls_slow = c.calls_slow + 1 })

  unfoldable pub serve_stats : Calls → List Call × Calls
  serve_stats c = (write_json (stats_json c), c)

  abbrev pub serve_page : Page → Request → Calls → List Call × Calls
  serve_page product r c = serve_product c
  serve_page cart r c = serve_cart c
  serve_page checkout r c = serve_checkout r c
  serve_page private r c = serve_private c
  serve_page slow r c = serve_slow c
  serve_page stats r c = serve_stats c

  -- What the handler does for a request when the counters stand so.
  unfoldable pub site :
      (Request → Option Page) → (Request → List Call) → Calls → Request → List Call
  site route not_found c r = elim (route r) [
    | none ↦ not_found r
    | some page ↦ (serve_page page r c).0
  ]

-- The predictor of main, with its seeded transitions.
unfoldable pub seeded_predictor : AdaptiveMarkovPredictor
seeded_predictor = seed_transition (codes "GET /api/cart") (codes "GET /api/checkout") (pos 6) (
    seed_transition (codes "GET /api/products/:id") (codes "GET /api/cart") (pos 10)
      new_adaptive_markov_predictor)

-- The configuration of main; what it does not name is Go's zero value.
unfoldable pub server_config : {S : Type 0} → Config S AdaptiveMarkovPredictor
server_config = record {
  store = none;
  predictor = some seeded_predictor;
  confidence_threshold = record { num = pos 5; den = 10 };
  ttl = pos (30 * 10 ^ 9);
  session_cookie_name = [];
  cookie_secure = false;
  session_extractor = none;
  is_authenticated = none;
  auth_cookie_names = [];
  skip_routes = codes "/stats" ∷ [];
  public_routes = [];
  max_response_size = pos 0;
  coalesce_authenticated = false;
  vary_headers = [];
  workers = pos 4;
}

-- The map-based predictor behind the engine's interface.
abbrev pub markov_predictor : ℕ → Predictor AdaptiveMarkovPredictor
markov_predictor victim = record { record_visit = Markov.record_visit victim; predict = forecast }
