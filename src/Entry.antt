-- ===== src/Entry.antt =====
-- store.go: the cached response, and its test against a request's headers.
use cache_predict.Common.{ℕ, Bool, true, false, ◌&&◌, Option, [], ◌∷◌, if◌then◌else◌}
use cache_predict.Common.Words.{Bytes}
use cache_predict.Common.Dict.{Dict, bytes_key}
use cache_predict.Common.Text.{codes}
use cache_predict.Http
use cache_predict.Http.{Header}

-- ResponseEntry. A time is its UnixNano; the zero time is `none`. An empty map stands for nil too,
-- which no operation tells apart.
pub record ResponseEntry : Type 0 where
  pub body : Bytes
  pub header : Header
  pub content_type : Bytes
  pub status_code : ℕ
  pub created_at : ℕ
  pub expires_at : Option ℕ
  pub vary : Dict Bytes Bytes

-- The loop of MatchesVary over the recorded headers.
unfoldable pub all_match : Dict Bytes Bytes → Header → Bool
all_match [] r = true
all_match ((name, expected) ∷ m) r = bytes_key.same (Http.get r name) expected && all_match m r

-- e.MatchesVary(r), for the header of the request.
unfoldable pub matches_vary : ResponseEntry → Header → Bool
unfolding all_match
matches_vary e r =
    if bytes_key.same (Http.get e.header (codes "Vary")) (codes "*")
    then false
    else all_match e.vary r
