-- ===== src/Dense/Ops/Recording.antt =====
-- Record never panics, keeps the predictor's invariant, and counts the transition from the session's last step.
use cache_predict.Common.{
  ℕ, ◌≤◌, ◌<◌, ◌≡◌, ◌≢◌, ◌⊎◌, refl, ◌∙◌, true, false, ◌||◌, Option, List, none, some, leb, ◌==◌,
  arith, length-set, get_elem?, get_elem?-lt, set, All-set, All-get_elem?, Bool-cases, inl, inr,
}
use cache_predict.Common.Words.{Bytes}
use cache_predict.Common.Text.{to_upper}
use cache_predict.Registry.{get_or_register, find, invalid_route_id}
use cache_predict.Registry.Laws.{get_or_register_inverse}
use cache_predict.Normalizer.{normalize_route}
use cache_predict.Dense.Sessions.{DenseStep, Sessions, last_step, history_of, track}
use cache_predict.Dense.Sessions.Bounds.{
  IsShard, IsRoute, track-IsShard, history_of-IsSession, All-last_step,
}
use cache_predict.Dense.Ops.{
  DenseMatrixPredictor, num_session_shards, record_step, with_registry, shard_for, record_request,
  concrete_call, remember_concrete,
}
use cache_predict.Dense.Ops.Invariant.{
  IsPredictor, with_registry-IsPredictor, CountedAfter, count_step-Counted, CountedAfter-IsMatrix,
  CountedAfter-size, remember_concrete-static,
}

-- The last step of a session, in the shard with that number.
pub last_in : ℕ → Bytes → List Sessions → Option DenseStep
last_in shard session shards = elim (get_elem? shards shard) [
  | none ↦ none
  | some sessions ↦ last_step (history_of session sessions)
]

module _ (victim shard : ℕ) (session : Bytes) (step : DenseStep) (p : DenseMatrixPredictor) where
  record_step-IsPredictor :
      IsPredictor p
      → shard < num_session_shards
      → step.id < p.counts.max_routes
      → find step.pattern p.registry ≡ some step.id
      → (w : DenseMatrixPredictor) × (record_step victim shard session step p ≡ some w)
        × IsPredictor w
        × CountedAfter (last_in shard session p.shards) step.id p.counts w.counts
  unfolding record_step last_in
  record_step-IsPredictor v here k f =
      let (sessions, e) = get_elem?-lt p.shards shard (omega (arith, v.sharded)) in
      let good =
        All-get_elem? (IsShard p.max_history p.counts.max_routes) p.shards shard v.tracked e in
      let prior = last_step (history_of session sessions) in
      let below : (s : DenseStep) → prior ≡ some s → s.id < p.counts.max_routes = λ s q.
        All-last_step (IsRoute p.counts.max_routes) (history_of session sessions) s
          (history_of-IsSession p.max_history p.counts.max_routes session sessions good.1).1 q in
      let (counts, d, c) = count_step-Counted prior step.id p.counts v.counted below k in
      let size = CountedAfter-size prior step.id p.counts counts c in
      let now =
        track-IsShard p.max_history p.counts.max_routes victim session step sessions good k in
      (
        record {
          registry = p.registry;
          counts = counts;
          shards = set p.shards shard (track victim p.max_history session step sessions);
          max_history = p.max_history;
          concrete = remember_concrete step.id step p.concrete;
        },
        rw (record_step, e, d) refl,
        record {
          registered = v.registered;
          counted = CountedAfter-IsMatrix prior step.id p.counts counts v.counted c;
          sharded = length-set p.shards shard _ ∙ v.sharded;
          tracked =
              rw size (
                All-set (IsShard p.max_history p.counts.max_routes) p.shards shard _ v.tracked now);
          static_only = remember_concrete-static p.registry step p.concrete f v.static_only;
        },
        rw (last_in, e) c,
      )

module _ (sum64 : Bytes → ℕ) (victim : ℕ) (session method path query : Bytes)
    (p : DenseMatrixPredictor) where
  -- The id that the request's route has after the registration.
  abbrev pub route_id : ℕ
  route_id = (get_or_register (normalize_route (to_upper method) path) p.registry).0

  -- In a predictor that keeps its invariant Record never panics and keeps the invariant. Either the route
  -- has no id in the matrix and no counter changes, or the transition from the session's last step, where it
  -- has one, is counted as one transition.
  pub record_request-IsPredictor :
      IsPredictor p
      → (w : DenseMatrixPredictor) × (record_request sum64 victim session method path query p
          ≡ some w)
        × IsPredictor w
        × ((((route_id ≡ invalid_route_id) ⊎ (p.counts.max_routes ≤ route_id))
              × (w.counts ≡ p.counts))
            ⊎ CountedAfter
                (last_in (shard_for sum64 session) session p.shards)
                route_id
                p.counts
                w.counts)
  unfolding record_request
  record_request-IsPredictor v =
      let pattern = normalize_route (to_upper method) path in
      let registry = (get_or_register pattern p.registry).1 in
      let q = with_registry registry p in
      let registered = with_registry-IsPredictor pattern p v in
      elim (Bool-cases ((route_id == invalid_route_id) || leb p.counts.max_routes route_id)) [
        | inl e ↦ (q, rw e refl, registered, inl (outside e, refl))
        | inr e ↦
            let step : DenseStep = record {
              id = route_id;
              concrete = concrete_call (to_upper method) path query;
              pattern = pattern;
              path = path;
              query = query;
            } in
            let found = (get_or_register_inverse pattern p.registry v.registered (valid e)).0 in
            let (w, r, s, c) =
              record_step-IsPredictor victim (shard_for sum64 session) session step q registered
                (unfold shard_for in omega arith) (below e) found in
            (w, rw e r, s, inr c)
      ]
    where
      outside :
          ((route_id == invalid_route_id) || leb p.counts.max_routes route_id) ≡ true
          → (route_id ≡ invalid_route_id) ⊎ (p.counts.max_routes ≤ route_id)
      outside e = ground arith

      valid :
          ((route_id == invalid_route_id) || leb p.counts.max_routes route_id) ≡ false
          → route_id ≢ invalid_route_id
      valid e = ground arith

      below :
          ((route_id == invalid_route_id) || leb p.counts.max_routes route_id) ≡ false
          → route_id < p.counts.max_routes
      below e = ground arith
