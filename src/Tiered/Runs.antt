-- ===== src/Tiered/Runs.antt =====
-- The tiered store over MemoryStore, at a concrete input.
use cache_predict.Common.{ℕ, ◌≡◌, refl, none, some, [], length}
use cache_predict.Common.Int.{pos}
use cache_predict.Common.Words.{Bytes}
use cache_predict.Common.Text.{codes}
use cache_predict.Common.Dict.{bytes_key}
use cache_predict.Entry.{ResponseEntry}
use cache_predict.Store.{MemoryStore, memory_store, memory_set}
use cache_predict.Tiered.{TieredStore, new_tiered_store, tiered_get, tiered_set, is_live, ttl_nano}
use cache_predict.Tiered.Laws.{tiered_get-tiered_set}

abbrev by_length : Bytes → ℕ
by_length s = length s

abbrev page : ResponseEntry
page = record {
  body = codes "hi";
  header = [];
  content_type = codes "text/plain";
  status_code = 200;
  created_at = 5;
  expires_at = none;
  vary = [];
}

abbrev over_memory : TieredStore MemoryStore
over_memory = new_tiered_store (record { items = [] })

tiered_get-tiered_set_example :
    (tiered_get by_length memory_store 12 13
      (codes "/a")
      (tiered_set by_length memory_store 5 6 (codes "/a") (some page) (pos 10) over_memory).2).0
    ≡ (tiered_set by_length memory_store 5 6 (codes "/a") (some page) (pos 10) over_memory).1
unfolding new_tiered_store tiered_set memory_set is_live ttl_nano
tiered_get-tiered_set_example =
    tiered_get-tiered_set by_length memory_store 5 6 12 13 (codes "/a") page (pos 10) over_memory
      refl refl refl
