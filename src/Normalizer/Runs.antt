-- ===== src/Normalizer/Runs.antt =====
-- Runs of the route patterns and the cache keys, and their theorems at concrete inputs.
use cache_predict.Common.{ℕ, ◌%◌, ◌^◌, ◌≡◌, refl, [], length, arith}
use cache_predict.Common.Words.{Bytes}
use cache_predict.Common.Text.{codes, split, contains, to_upper}
use cache_predict.Normalizer.{
  is_digit, normalize_route, normalize_path, is_hex, canonical_cache_key_with_host,
}
use cache_predict.Normalizer.Order.{cache_key_query_order}
use cache_predict.Normalizer.CacheKey.{query_in_path}
use cache_predict.Normalizer.Routes.{adjacent_ids}
use mathlib.Core.List.{Permᴰ}

two_ids :
    normalize_route (codes "get") (codes "/users/42/orders/7") ≡ codes "GET /users/:id/orders/:id"
unfolding normalize_route
two_ids = refl

-- The match of the first id takes the slash in front of the second.
second_id_stays : normalize_path (codes "/users/1/2") ≡ codes "/users/:id/2"
unfolding normalize_path
second_id_stays = refl

-- A digest for the runs: any function will do where nothing is asked of it.
abbrev digest : Bytes → ℕ
digest s = length s % 2 ^ 64

query_in_path_example :
    canonical_cache_key_with_host digest (codes "GET") [] (codes "/a?x=1") [] []
    ≡ canonical_cache_key_with_host digest (codes "GET") [] (codes "/a") (codes "x=1") []
unfolding contains
query_in_path_example =
    query_in_path digest (codes "GET") [] (codes "/a") (codes "x=1") [] refl refl

adjacent_ids_example : normalize_route (codes "get") (codes "/users/1/2") ≡ codes "GET /users/:id/2"
unfolding is_digit is_hex to_upper
adjacent_ids_example =
    adjacent_ids (codes "users") (codes "1") (codes "2")
      (refl, (refl, (refl, (refl, (refl, (refl, tt)))))) ((refl, tt), omega arith)
      ((refl, tt), omega arith) (codes "get")

cache_key_query_order_example :
    canonical_cache_key_with_host digest (codes "GET") [] (codes "/a") (codes "x=1&y=2") []
    ≡ canonical_cache_key_with_host digest (codes "GET") [] (codes "/a") (codes "y=2&x=1") []
unfolding split
cache_key_query_order_example =
    cache_key_query_order digest (codes "GET") [] (codes "/a") (codes "x=1&y=2") (codes "y=2&x=1")
      [] ∣ Permᴰ.swap refl refl ∣₁
