-- ===== src/Prefetcher/Runs.antt =====
-- A job for a page of a small site, and the theorems about it.
use cache_predict.Common.{
  ℕ, ◌≡◌, ◌⊎◌, true, false, Option, none, some, List, [], ◌∷◌, length, if◌then◌else◌,
}
use cache_predict.Common.Int.{pos}
use cache_predict.Common.Words.{Bytes}
use cache_predict.Common.Text.{codes, contains}
use cache_predict.Dense.Ops.{Prediction}
use cache_predict.Prefetcher.{
  PrefetchJob, Prefetcher, Target, Times, execute, target_of, submit, new_job, submits_as_auth,
  is_below, job_key,
}
use cache_predict.Prefetcher.Queue.{AreJobsOf, accepted, worthwhile, submit-AreJobsOf}
use cache_predict.Prefetcher.Safety.{IsHarmless, IsRefused, IsWarmed, execute_store}
use cache_predict.Request.{Request, Cookie}
use cache_predict.Store.{MemoryStore, memory_store}
use cache_predict.Writer.{Call, write_call}

abbrev digest : Bytes → ℕ
digest s = length s

abbrev bare_request : Bytes → Bytes → Request
bare_request method uri = record {
  method = method;
  path = uri;
  raw_query = [];
  host = codes "h";
  header = [];
  cookies = [];
}

-- httptest.NewRequest for the targets of this site; one with a space in it is refused.
abbrev plain_request : Bytes → Bytes → Option Request
plain_request method uri = if contains uri (codes " ") then none else some (bare_request method uri)

abbrev drop_cookie : Cookie → Request → Request
drop_cookie c r = r

abbrev site : Request → List Call
site r = write_call (codes "hello") ∷ []

abbrev likely : Prediction
likely = record { call = codes "GET /a"; pattern = codes "GET /a"; count = 9; total = 10 }

abbrev unlikely : Prediction
unlikely = record { call = codes "GET /b"; pattern = codes "GET /b"; count = 1; total = 10 }

abbrev times : Times
times = record { looked = 1; checked = 2; created = 3; expiring = 3; stored = 3 }

abbrev job : PrefetchJob
job = new_job (codes "s") (bare_request (codes "GET") (codes "/")) false likely

abbrev empty_store : MemoryStore
empty_store = record { items = [] }

abbrev outcome : Option (Option ℕ × MemoryStore)
outcome =
    execute digest plain_request drop_cookie memory_store site times true (pos 60) job empty_store

execute_store_example :
    (outcome ≡ some (none, empty_store))
    ⊎ ((target : Target) × (target_of job.prediction.call ≡ some target)
        × IsHarmless target
        × (memory_store.get times.looked
              (job_key digest plain_request drop_cookie memory_store site job target)
              empty_store
            ≡ none)
        × (((outcome ≡ none)
              × IsRefused digest plain_request drop_cookie memory_store site times
                  (pos 60)
                  job
                  empty_store
                  target)
            ⊎ IsWarmed digest plain_request drop_cookie memory_store site times
                (pos 60)
                job
                empty_store
                target
                outcome))
execute_store_example =
    execute_store digest plain_request drop_cookie memory_store site times (pos 60) job empty_store
      true

abbrev idle_prefetcher : Prefetcher
idle_prefetcher = record {
  has_handler = true;
  queue = [];
  threshold = record { num = pos 65; den = 100 };
  ttl = pos 60;
  is_auth = none;
  closed = false;
}

abbrev home : Request
home = bare_request (codes "GET") (codes "/")

-- One job waits, and of two predictions one is likely enough.
abbrev waiting_one : Prefetcher
waiting_one = record idle_prefetcher { queue = job ∷ [] }

submit-AreJobsOf_example :
    (jobs : List PrefetchJob) × ((submit
        (codes "s")
        (likely ∷ unlikely ∷ [])
        home
        waiting_one).queue
      ≡ job ∷ jobs)
    × AreJobsOf (codes "s") home (submits_as_auth waiting_one home) (likely ∷ []) jobs
unfolding accepted worthwhile is_below
submit-AreJobsOf_example = submit-AreJobsOf (codes "s") (likely ∷ unlikely ∷ []) home waiting_one
