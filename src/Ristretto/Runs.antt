-- ===== src/Ristretto/Runs.antt =====
-- The adapter over a cache with one place.
use cache_predict.Common.{◌≡◌, refl, true, Option, none, some, [], if◌then◌else◌}
use cache_predict.Common.Int.{pos, negsuc}
use cache_predict.Common.Words.{Bytes}
use cache_predict.Common.Dict.{bytes_key}
use cache_predict.Common.Text.{codes}
use cache_predict.Entry.{ResponseEntry}
use cache_predict.Ristretto.{
  Value, Ristretto, capacity_of, cost_of, ristretto_get, ristretto_set, ristretto_store,
}
use cache_predict.Ristretto.Laws.{ristretto_store-StoreLaws}
use cache_predict.Store.{StoreLaws}

abbrev Place : Type 0
Place = Option (Bytes × Value)

abbrev held_at : Bytes → Place → Option Value
held_at key none = none
held_at key (some (k, v)) = if bytes_key.same k key then some v else none

abbrev one_place : Ristretto Place
one_place = record {
  new_cache = λ config. some none;
  get = λ now key c. held_at key c;
  set_with_ttl = λ now key v cost ttl c. (true, some (key, v));
  del = λ key c. none;
  close = λ c. none;
}

one_place-StoreLaws : StoreLaws (ristretto_store one_place)
one_place-StoreLaws = ristretto_store-StoreLaws one_place (λ now key c. refl) (λ now key c. refl)

abbrev hello : ResponseEntry
hello = record {
  body = codes "hello";
  header = [];
  content_type = [];
  status_code = 200;
  created_at = 0;
  expires_at = none;
  vary = [];
}

set_then_get :
    ristretto_get one_place 1
      (codes "k")
      (ristretto_set one_place 0 (codes "k") hello (pos 5) none).2
    ≡ some hello
unfolding ristretto_get ristretto_set
set_then_get = refl

hello_cost : cost_of hello ≡ 69
unfolding cost_of
hello_cost = refl

default_capacity : capacity_of (negsuc 0) ≡ 104857600
unfolding capacity_of
default_capacity = refl
