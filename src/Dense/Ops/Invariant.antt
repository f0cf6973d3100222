-- ===== src/Dense/Ops/Invariant.antt =====
-- What every operation of the dense predictor keeps, and that none of them panics.
use cache_predict.Common.{
  ℕ, ◌<◌, ◌≡◌, refl, sym, ap, subst, true, Option, none, some, [], ◌∷◌, lt→ltb, length, All,
  if_cases,
}
use cache_predict.Common.Words.{Bytes}
use cache_predict.Common.Dict.{Dict, number_key, All-insert}
use cache_predict.Registry.{EndpointRegistry, get_or_register, find}
use cache_predict.Registry.Laws.{IsRegistry, get_or_register-IsRegistry, find-get_or_register}
use cache_predict.Dense.Matrix.{TransitionMatrix}
use cache_predict.Dense.Matrix.Counts.{IsMatrix}
use cache_predict.Dense.Matrix.Step.{Counted, count_transition-Counted}
use cache_predict.Dense.Sessions.{DenseStep}
use cache_predict.Dense.Sessions.Bounds.{IsShard}
use cache_predict.Dense.Hydrate.{is_static}
use cache_predict.Dense.Ops.{
  DenseMatrixPredictor, num_session_shards, count_step, remember_concrete, with_registry,
}

-- A call that is kept for all sessions belongs to a route without placeholders.
abbrev pub IsStaticEntry : EndpointRegistry → ℕ × Bytes → Type 0
IsStaticEntry r e = (pattern : Bytes) × (find pattern r ≡ some e.0) × (is_static pattern ≡ true)

pub record IsPredictor (p : DenseMatrixPredictor) : Type 0 where
  pub registered : IsRegistry p.registry
  pub counted : IsMatrix p.counts
  pub sharded : length p.shards ≡ num_session_shards
  pub tracked : All (IsShard p.max_history p.counts.max_routes) p.shards
  pub static_only : All (IsStaticEntry p.registry) p.concrete

All-weaken :
    {P Q : ℕ × Bytes → Type 0}
    → ((e : ℕ × Bytes) → P e → Q e)
    → (l : Dict ℕ Bytes) → All P l
    → All Q l
All-weaken f [] h = tt
All-weaken f (e ∷ l) h = (f e h.0, All-weaken f l h.1)

pub with_registry-IsPredictor :
    (pattern : Bytes) (p : DenseMatrixPredictor)
    → IsPredictor p
    → IsPredictor (with_registry (get_or_register pattern p.registry).1 p)
with_registry-IsPredictor pattern p v = record {
  registered = get_or_register-IsRegistry pattern p.registry v.registered;
  counted = v.counted;
  sharded = v.sharded;
  tracked = v.tracked;
  static_only =
      All-weaken
        (λ e (q, f, s). (q, find-get_or_register pattern p.registry v.registered q e.0 f, s))
        p.concrete v.static_only;
}

-- What a step of the session does to the counters.
abbrev pub CountedAfter : Option DenseStep → ℕ → TransitionMatrix → TransitionMatrix → Type 0
CountedAfter none to_id m w = w ≡ m
CountedAfter (some prior) to_id m w = Counted prior.id to_id m w

pub count_step-Counted :
    (prior : Option DenseStep) (to_id : ℕ) (m : TransitionMatrix)
    → IsMatrix m
    → ((s : DenseStep) → prior ≡ some s → s.id < m.max_routes)
    → to_id < m.max_routes
    → (w : TransitionMatrix) × (count_step prior to_id m ≡ some w) × CountedAfter prior to_id m w
unfolding count_step
count_step-Counted none to_id m v below k = (m, refl, refl)
count_step-Counted (some prior) to_id m v below k =
    let (w, e, c) = count_transition-Counted m prior.id to_id v (below prior refl) k in
    (w, rw (lt→ltb prior.id m.max_routes (below prior refl)) e, c)

pub CountedAfter-IsMatrix :
    (prior : Option DenseStep) (to_id : ℕ) (m w : TransitionMatrix)
    → IsMatrix m
    → CountedAfter prior to_id m w
    → IsMatrix w
CountedAfter-IsMatrix none to_id m w v e = subst IsMatrix (sym e) v
CountedAfter-IsMatrix (some s) to_id m w v c = c.sound

pub CountedAfter-size :
    (prior : Option DenseStep) (to_id : ℕ) (m w : TransitionMatrix)
    → CountedAfter prior to_id m w
    → w.max_routes ≡ m.max_routes
CountedAfter-size none to_id m w e = ap (λ x. x.max_routes) e
CountedAfter-size (some s) to_id m w c = c.size

pub remember_concrete-static :
    (r : EndpointRegistry) (step : DenseStep) (concrete : Dict ℕ Bytes)
    → find step.pattern r ≡ some step.id
    → All (IsStaticEntry r) concrete
    → All (IsStaticEntry r) (remember_concrete step.id step concrete)
unfolding remember_concrete
remember_concrete-static r step concrete f h =
    if_cases (All (IsStaticEntry r)) (is_static step.pattern) _ _
      (λ e. All-insert (IsStaticEntry r) step.id step.concrete concrete (step.pattern, f, e) h)
      (λ _. h)
