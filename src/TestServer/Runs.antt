-- ===== src/TestServer/Runs.antt =====
-- A visit of /api/private through the engine of the test server.
use cache_predict.Common.{
  arith, ℕ, ◌<◌, ◌≡◌, ◌++◌, refl, inl, false, Option, none, some, List, [], ◌∷◌, length,
}
use cache_predict.Common.Int.{ℤ}
use cache_predict.Common.Words.{Bytes}
use cache_predict.Common.Text.{codes}
use cache_predict.ClientAssets.{Assets}
use cache_predict.Engine.{new_engine}
use cache_predict.Markov.{AdaptiveMarkovPredictor, new_adaptive_markov_predictor}
use cache_predict.Middleware.{HttpCookie, Clock, Served}
use cache_predict.Middleware.Serve.{leads, serve}
use cache_predict.Request.{Request}
use cache_predict.Store.{MemoryStore, memory_store}
use cache_predict.TestServer.{
  Page, private, Calls, serve_stats, site, server_config, markov_predictor,
}
use cache_predict.TestServer.Private.{private_unstored}
use cache_predict.Writer.{
  Client, Call, write_header_call, write_call, run, step, write_header, write, commit, drain, pass,
  new_writer, status_of,
}

abbrev no_calls : Calls
no_calls = record {
  calls_product = 0;
  calls_cart = 0;
  calls_checkout = 0;
  calls_private = 0;
  calls_slow = 0;
}

abbrev one_digit : ℕ → Bytes
one_digit n = n ∷ []

abbrev cookie_line : Bytes → Bytes → Bytes
cookie_line name value = name ++ (codes "=" ++ value)

abbrev no_body : Request → ℕ
no_body r = 0

abbrev plain_error : Bytes → ℕ → List Call
plain_error message code = write_header_call code ∷ write_call message ∷ []

abbrev no_stats : Calls → Bytes
no_stats c = []

-- A mux on which every path is that of the private page.
abbrev only_private : Request → Option Page
only_private r = some private

abbrev no_page : Request → List Call
no_page r = []

abbrev get_private : Request
get_private = record {
  method = codes "GET";
  path = codes "/api/private";
  raw_query = [];
  host = codes "h";
  header = [];
  cookies = [];
}

abbrev no_assets : Assets
no_assets = record { client_script = []; wasm_exec_script = []; wasm = none; not_found = λ w. w }

abbrev keep_cookie : HttpCookie → Client → Client
keep_cookie cookie w = w

abbrev clock : Clock
clock = record {
  looked = 1;
  looked_vary = 1;
  checked = 2;
  checked_vary = 2;
  created = 3;
  expiring = 3;
  stored = 3;
  stored_vary = 3;
}

abbrev nobody : Client
nobody = record {
  header = [];
  status = none;
  sent = [];
  flushes = 0;
  is_flusher = false;
  is_hijacker = false;
}

abbrev server : Served MemoryStore AdaptiveMarkovPredictor
server = record {
  w = nobody;
  e = new_engine (record { items = [] }) new_adaptive_markov_predictor server_config;
}

plain_error_status :
    (message : Bytes) (code : ℕ) (w : Client) (m : ℤ)
    → 0 < code
    → status_of (run (plain_error message code) (new_writer w m)) ≡ code
unfolding run step write_header write commit drain pass status_of
plain_error_status message code w m h = ground arith

private_unstored_example :
    (serve length memory_store
      (markov_predictor 0)
      (site one_digit no_body cookie_line plain_error no_stats only_private no_page no_calls)
      no_assets
      (codes "s")
      keep_cookie
      clock
      leads
      get_private
      server).e.store
    ≡ record { items = [] }
unfolding new_engine server_config
private_unstored_example =
    private_unstored one_digit no_body cookie_line plain_error no_stats plain_error_status
      only_private no_page no_calls length memory_store (markov_predictor 0) no_assets (codes "s")
      keep_cookie get_private server clock leads (inl refl)

-- The page of the counters counts nothing.
stats_uncounted :
    (serve_stats one_digit no_body cookie_line plain_error no_stats no_calls).1 ≡ no_calls
unfolding serve_stats
stats_uncounted = refl
