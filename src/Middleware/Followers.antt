-- ===== src/Middleware/Followers.antt =====
-- A follower's entry, against what the cache would give the same request.
use cache_predict.Common.{
  ℕ, ◌≡◌, ◌≢◌, ◌∙◌, ap, inl, inr, true, false, none, some, List, ◌++◌, arith, Option-cases,
}
use cache_predict.Common.Words.{Bytes}
use cache_predict.Common.Text.{is_empty}
use cache_predict.Entry.{ResponseEntry, matches_vary}
use cache_predict.Middleware.{Predictor, Clock, Ask, Served, find_cached, may_read}
use cache_predict.Middleware.Sent.{visit_and_prefetch-sent, reply-sent}
use cache_predict.Middleware.Serve.{follows, miss, coalesce_key, share, finish_follower}
use cache_predict.Request.{Request}
use cache_predict.Store.{Store}
use cache_predict.Telemetry.{record_miss}
use cache_predict.Writer.{Call}

module _ (sum64 : Bytes → ℕ) {S : Type 0} (store : Store S) where
  find_cached-may_read :
      (now later : ℕ) (a : Ask) (s : S) (e : ResponseEntry)
      → find_cached sum64 store now later a s ≡ some e
      → may_read a e ≡ true
  unfolding find_cached
  find_cached-may_read now later a s e p = elim (Option-cases (store.get now a.key s)) [
    | inl q ↦ absurd (ground (arith, p, q))
    | inr (x, q) ↦ ground (arith, p, q)
  ]

  find_cached-matches_vary :
      (now later : ℕ) (a : Ask) (s : S) (e : ResponseEntry)
      → find_cached sum64 store now later a s ≡ some e
      → matches_vary e a.r.header ≡ true
  unfolding may_read
  find_cached-matches_vary now later a s e p =
      let reads = find_cached-may_read now later a s e p in ground (arith, reads)

  -- A follower whose leader shares an entry that does not match the follower's own request headers is served
  -- that entry's body all the same, where no look into the cache, at whatever time and with whatever
  -- it holds, gives this request that entry.
  pub follower_vary :
      {P : Type 0} (predictor : Predictor P) (next : Request → List Call) (t : Clock) (a : Ask)
      (s : Served S P) (e : ResponseEntry) (now later : ℕ) (x : S)
      → is_empty (coalesce_key sum64 store predictor next a s.e) ≡ false
      → matches_vary e a.r.header ≡ false
      → ((miss sum64 store predictor next t (follows (some e) none) a s).w.sent
          ≡ s.w.sent ++ e.body)
        × (find_cached sum64 store now later a x ≢ some e)
  unfolding miss share finish_follower
  follower_vary {P = P} predictor next t a s e now later x joins differs =
      let s' : Served S P = record s { e = record s.e { telemetry = record_miss s.e.telemetry } } in
      (
        rw (joins) (
            reply-sent _ _ _ e.body _
            ∙ ap (λ y. y ++ e.body) (visit_and_prefetch-sent predictor a s')),
        λ p. absurd (ground (arith, differs, find_cached-matches_vary now later a x e p)),
      )
