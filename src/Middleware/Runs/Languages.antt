-- ===== src/Middleware/Runs/Languages.antt =====
-- The small site's answer in English, and requests of both languages for it.
use cache_predict.Common.{ap, ◌≡◌, ◌≢◌, inl, refl, false, none, some, List, [], ◌∷◌, ◌++◌}
use cache_predict.Common.Int.{pos}
use cache_predict.Common.Words.{Bytes}
use cache_predict.Common.Dict.{bytes_key, lookup, insert}
use cache_predict.Common.Text.{codes, contains, trim_space, split}
use cache_predict.Coalesce.{
  FnResult, returned, result, finished, held, keep_result, unregister, publish, join_call,
}
use cache_predict.Coalesce.TwoCallers.{one_key, ended, to_ended}
use cache_predict.Entry.{ResponseEntry, matches_vary, all_match}
use cache_predict.Http
use cache_predict.Middleware.{Ask, Served, find_cached, put_entry, new_entry}
use cache_predict.Middleware.Boundary.{IsShareable, finished-IsShareable}
use cache_predict.Middleware.Leader.{lead_cached}
use cache_predict.Middleware.Caching.{MayBeShared}
use cache_predict.Middleware.Followers.{follower_vary}
use cache_predict.Middleware.Serve.{Led, lead, follows, miss, coalesce_key}
use cache_predict.Middleware.Warm.{find_cached-put_entry}
use cache_predict.Store.{MemoryStore, memory_store, is_over, expiry_after}
use cache_predict.Vary.{extract_vary_map, record_parts}
use cache_predict.Writer.{CapturingResponseWriter, status_of}
use cache_predict.Middleware.Runs.{digest, no_forecast, site, blank, clock, before, visit_home}

-- The site's answer to a request in English, and requests with and without that language.
abbrev answer : CapturingResponseWriter
answer = record {
  w = blank;
  header = (codes "Vary", codes "Accept-Language" ∷ []) ∷ [];
  buf = codes "hello";
  status_code = 0;
  max_bytes = pos 100;
  header_written = false;
  streaming = false;
  overflow = false;
}

abbrev asks_in : Bytes → Ask
asks_in language = record {
  r = record visit_home { header = (codes "Accept-Language", language ∷ []) ∷ [] };
  session = codes "s";
  method = codes "GET";
  is_speculative = false;
  no_cache = false;
  no_store = false;
  is_public = false;
  is_auth = false;
  key = codes "key";
}

answer-MayBeShared : MayBeShared (asks_in (codes "en")) answer
unfolding lookup Http.values Http.get Http.canonical_key contains status_of
answer-MayBeShared = record {
  ok = refl;
  no_cookie = refl;
  may_keep = refl;
  not_private = refl;
  can_vary = λ e. absurd (cc);
  for_all = inl refl;
  wanted = refl;
  whole = refl;
}

-- The English answer, to a follower that asks in French.
abbrev english : ResponseEntry
english = new_entry clock (pos 60) (asks_in (codes "en")).r answer

follower_vary_example :
    ((miss digest memory_store no_forecast site clock
        (follows (some english) none)
        (asks_in (codes "fr"))
        before).w.sent
      ≡ before.w.sent ++ english.body)
    × (find_cached digest memory_store 9 9 (asks_in (codes "fr")) before.e.store ≢ some english)
unfolding coalesce_key matches_vary all_match Http.get new_entry extract_vary_map record_parts split
    trim_space insert
follower_vary_example =
    follower_vary digest memory_store no_forecast site clock (asks_in (codes "fr")) before english 9
      9 before.e.store refl refl

-- The site where that answer is in the cache.
abbrev warm : Served MemoryStore (List Bytes)
warm = record before {
  e = record before.e {
    store =
        (put_entry digest memory_store clock (pos 60) (asks_in (codes "en")) english
          (record { items = [] })).1;
  };
}

warm_finds :
    find_cached digest memory_store clock.checked clock.checked_vary
      (asks_in (codes "en"))
      warm.e.store
    ≡ some english
unfolding is_over expiry_after split Http.get
warm_finds =
    find_cached-put_entry digest clock (pos 60) (asks_in (codes "en")) (asks_in (codes "en")) answer
      (record { items = [] }) 2 2 answer-MayBeShared refl (refl, tt) refl refl refl

abbrev led_warm : Led MemoryStore (List Bytes)
led_warm = lead digest memory_store no_forecast site clock (asks_in (codes "en")) warm

abbrev shared_result : FnResult
shared_result = returned led_warm.entry led_warm.err

received : (ended shared_result).pc 1 ≡ finished 0 (result (some english) none)
unfolding join_call keep_result unregister publish lookup insert
received =
    ap (λ l. finished 0 (result l.entry l.err))
      (lead_cached digest memory_store no_forecast site clock (asks_in (codes "en")) warm english
        warm_finds)

finished-IsShareable_example :
    IsShareable digest memory_store no_forecast site clock (asks_in (codes "en")) warm english
finished-IsShareable_example =
    finished-IsShareable digest memory_store no_forecast site clock (asks_in (codes "en")) warm
      one_key (to_ended shared_result) 0 1 0 (held ((ended shared_result).group.memory 0)) english
      refl received
