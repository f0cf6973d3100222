-- ===== src/Markov/Invariant.antt =====
-- What every operation of the map-based predictor keeps.
use cache_predict.Common.{
  ℕ, ◌-◌, ◌%◌, ◌≡◌, ◌≤◌, ◌<◌, refl, subst, false, ◌&&◌, List, [], ◌∷◌, ◌++◌, arith, leb,
  if◌then◌else◌, Bool-cases, Option-cases, inl, inr, get_elem?-lt, length, length-drop, get_elem?,
}
use native.Mathlib.Nat.{mod-lt}
use cache_predict.Common.Int.{ℤ, pos}
use cache_predict.Common.Words.{Bytes}
use cache_predict.Common.Dict.{
  Dict, lookup, insert, lookup-insert, lookup-remove, length-insert, length-insert_old,
  length-remove, length-remove_at, bytes_key,
}
use cache_predict.Markov.{
  AdaptiveMarkovPredictor, HistoryStep, new_adaptive_markov_predictor, or_nil, past_of, add_weight,
  count_visit, last_visit, drop_session, keep_latest, remember, record_visit, forget_session,
  total_of, row_of, visit_step, seed_transition,
}
use cache_predict.Markov.Counts.{IsBalanced, sum_counts, add_weight-IsBalanced}

-- Totals are sums, and the sessions and their histories are within the limits of the constructor.
pub record IsPredictor (p : AdaptiveMarkovPredictor) : Type 0 where
  pub balanced : IsBalanced p
  pub few : length p.sessions ≤ p.max_sessions
  pub short : (session : Bytes) → length (past_of session p) ≤ p.max_history
  pub session_cap : p.max_sessions ≡ 5000
  pub history_cap : p.max_history ≡ 10

pub new-IsPredictor : IsPredictor new_adaptive_markov_predictor
unfolding total_of row_of past_of lookup sum_counts
new-IsPredictor = record {
  balanced = λ from. refl;
  few = omega arith;
  short = λ session. omega arith;
  session_cap = refl;
  history_cap = refl;
}

pub add_weight-IsPredictor :
    (from to : Bytes) (weight : ℤ) (p : AdaptiveMarkovPredictor)
    → IsPredictor p
    → IsPredictor (add_weight from to weight p)
unfolding add_weight past_of
add_weight-IsPredictor from to weight p v = record {
  balanced = add_weight-IsBalanced from to weight p v.balanced;
  few = v.few;
  short = v.short;
  session_cap = v.session_cap;
  history_cap = v.history_cap;
}

count_visit-IsPredictor :
    (hist : List HistoryStep) (step : HistoryStep) (p : AdaptiveMarkovPredictor)
    → IsPredictor p
    → IsPredictor (count_visit hist step p)
unfolding count_visit
count_visit-IsPredictor hist step p v = elim (Option-cases (last_visit hist)) [
  | inl e ↦ rw (count_visit, e) v
  | inr (last, e) ↦
      rw (count_visit, e) (add_weight-IsPredictor last.pattern step.pattern (pos 1) p v)
]

keep_latest-length : (n : ℕ) (hist : List HistoryStep) → length (keep_latest n hist) ≤ n
unfolding keep_latest
keep_latest-length n hist = ground (arith, length-drop (length hist - n) hist)

-- Dropping a session of a map that has one leaves less.
drop_session-length :
    (victim : ℕ) (sessions : Dict Bytes (List HistoryStep))
    → 0 < length sessions
    → length (drop_session victim sessions) < length sessions
unfolding drop_session
drop_session-length victim sessions some_there =
    let (entry, e) = get_elem?-lt sessions (victim % length sessions) (mod-lt victim some_there) in
    rw (length, drop_session, e) (length-remove_at sessions (victim % length sessions) entry e)

drop_session-lookup :
    (victim : ℕ) (session : Bytes) (sessions : Dict Bytes (List HistoryStep)) (n : ℕ)
    → length (or_nil (lookup session sessions)) ≤ n
    → length (or_nil (lookup session (drop_session victim sessions))) ≤ n
unfolding drop_session
drop_session-lookup victim session sessions n h =
    elim (Option-cases (get_elem? sessions (victim % length sessions))) [
      | inl e ↦ rw (drop_session, e) h
      | inr (entry, e) ↦
          rw (drop_session, e) (ground (arith, h, lookup-remove entry.0 session sessions))
    ]

-- Only a session that is not in the map has no history to read.
insert_known-length :
    (session : Bytes) (hist : List HistoryStep) (sessions : Dict Bytes (List HistoryStep))
    → leb (length (or_nil (lookup session sessions))) 0 ≡ false
    → length (insert session hist sessions) ≡ length sessions
insert_known-length session hist sessions h = elim (Option-cases (lookup session sessions)) [
  | inl e ↦ absurd (ground (arith, e, h))
  | inr (old, e) ↦ length-insert_old session hist old sessions e
]

abbrev roomy : ℕ → Bytes → AdaptiveMarkovPredictor → Dict Bytes (List HistoryStep)
roomy victim session p =
    if leb (length (past_of session p)) 0 && leb p.max_sessions (length p.sessions)
    then drop_session victim p.sessions
    else p.sessions

remember-few :
    (victim : ℕ) (session : Bytes) (hist : List HistoryStep) (p : AdaptiveMarkovPredictor)
    → IsPredictor p
    → length (insert session hist (roomy victim session p)) ≤ p.max_sessions
unfolding past_of
remember-few victim session hist p v = elim (Bool-cases (leb (length (past_of session p)) 0)) [
  | inr known ↦
      rw (known)
        (let same = insert_known-length session hist p.sessions known in omega (arith, same, v.few))
  | inl new ↦ elim (Bool-cases (leb p.max_sessions (length p.sessions))) [
    | inl full ↦
        rw (new, full)
          (let less = drop_session-length victim p.sessions (ground (arith, full, v.session_cap)) in
            omega (arith, less, v.few, length-insert session hist (drop_session victim p.sessions)))
    | inr loose ↦
        rw (new, loose)
          (let below : length p.sessions < p.max_sessions = ground (arith, loose) in
            omega (arith, below, length-insert session hist p.sessions))
  ]
]

roomy-short :
    (victim : ℕ) (session other : Bytes) (p : AdaptiveMarkovPredictor)
    → IsPredictor p
    → length (or_nil (lookup other (roomy victim session p))) ≤ p.max_history
unfolding past_of
roomy-short victim session other p v =
    let short : length (or_nil (lookup other p.sessions)) ≤ p.max_history = v.short other in
    let dropped = drop_session-lookup victim other p.sessions p.max_history short in
    elim (Bool-cases
      (leb (length (past_of session p)) 0 && leb p.max_sessions (length p.sessions))) [
        | inl e ↦ rw (e) dropped
        | inr e ↦ rw (e) short
      ]

remember-short :
    (victim : ℕ) (session other : Bytes) (hist : List HistoryStep) (p : AdaptiveMarkovPredictor)
    → IsPredictor p
    → length hist ≤ p.max_history
    → length (or_nil (lookup other (insert session hist (roomy victim session p)))) ≤ p.max_history
remember-short victim session other hist p v fits =
    elim (Bool-cases (bytes_key.same session other)) [
      | inl e ↦ rw (lookup-insert, e) fits
      | inr e ↦ rw (lookup-insert, e) (roomy-short victim session other p v)
    ]

remember-IsPredictor :
    (victim : ℕ) (session : Bytes) (step : HistoryStep) (p : AdaptiveMarkovPredictor)
    → IsPredictor p
    → IsPredictor (remember victim session (past_of session p) step p)
unfolding remember past_of total_of row_of
remember-IsPredictor victim session step p v =
    let hist = keep_latest p.max_history (past_of session p ++ step ∷ []) in
    record {
      balanced = v.balanced;
      few = remember-few victim session hist p v;
      short = λ other.
          remember-short victim session other hist p v
            (keep_latest-length p.max_history (past_of session p ++ step ∷ []));
      session_cap = v.session_cap;
      history_cap = v.history_cap;
    }

past_of-count_visit :
    (session : Bytes) (hist : List HistoryStep) (step : HistoryStep) (p : AdaptiveMarkovPredictor)
    → past_of session (count_visit hist step p) ≡ past_of session p
unfolding past_of count_visit add_weight
past_of-count_visit session hist step p = elim (Option-cases (last_visit hist)) [
  | inl e ↦ rw (count_visit, e) refl
  | inr (last, e) ↦ rw (count_visit, e) refl
]

record_visit-IsPredictor :
    (victim : ℕ) (session method path query : Bytes) (p : AdaptiveMarkovPredictor)
    → IsPredictor p
    → IsPredictor (record_visit victim session method path query p)
unfolding record_visit
record_visit-IsPredictor victim session method path query p v =
    let step = visit_step method path query in
    let counted = count_visit (past_of session p) step p in
    subst (λ hist. IsPredictor (remember victim session hist step counted))
      (past_of-count_visit session (past_of session p) step p)
      (remember-IsPredictor victim session step counted
        (count_visit-IsPredictor (past_of session p) step p v))

forget_session-IsPredictor :
    (session : Bytes) (p : AdaptiveMarkovPredictor)
    → IsPredictor p
    → IsPredictor (forget_session session p)
unfolding forget_session past_of total_of row_of
forget_session-IsPredictor session p v = record {
  balanced = v.balanced;
  few = omega (arith, v.few, length-remove session p.sessions);
  short = λ other.
      let short = v.short other in ground (arith, short, lookup-remove session other p.sessions);
  session_cap = v.session_cap;
  history_cap = v.history_cap;
}

-- A call of one of the operations that change a predictor.
pub data Op : Type 0 where
  records : (victim : ℕ) (session method path query : Bytes) → Op
  seeds : (from to : Bytes) (weight : ℤ) → Op
  resets : (session : Bytes) → Op

abbrev pub apply : Op → AdaptiveMarkovPredictor → AdaptiveMarkovPredictor
apply (records victim session method path query) p = record_visit victim session method path query p
apply (seeds from to weight) p = seed_transition from to weight p
apply (resets session) p = forget_session session p

abbrev pub apply_all : List Op → AdaptiveMarkovPredictor → AdaptiveMarkovPredictor
apply_all [] p = p
apply_all (op ∷ ops) p = apply_all ops (apply op p)

apply_all-IsPredictor_from :
    (ops : List Op) (p : AdaptiveMarkovPredictor) → IsPredictor p → IsPredictor (apply_all ops p)
apply_all-IsPredictor_from [] p v = v
apply_all-IsPredictor_from (records victim session method path query ∷ ops) p v =
    apply_all-IsPredictor_from ops _ (record_visit-IsPredictor victim session method path query p v)
apply_all-IsPredictor_from (seeds from to weight ∷ ops) p v =
    apply_all-IsPredictor_from ops _ (add_weight-IsPredictor from to weight p v)
apply_all-IsPredictor_from (resets session ∷ ops) p v =
    apply_all-IsPredictor_from ops _ (forget_session-IsPredictor session p v)

-- After any calls of Record, SeedTransition and ResetSession on a new map-based predictor: the total of each
-- pattern is the sum of its transitions' counters, at most 5000 sessions are kept, and no history is
-- longer than 10.
pub apply_all-IsPredictor :
    (ops : List Op) → IsPredictor (apply_all ops new_adaptive_markov_predictor)
apply_all-IsPredictor ops =
    apply_all-IsPredictor_from ops new_adaptive_markov_predictor new-IsPredictor
