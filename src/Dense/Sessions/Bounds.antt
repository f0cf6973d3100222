-- ===== src/Dense/Sessions/Bounds.antt =====
-- A shard keeps at most 500 sessions, and each of them a bounded history.
use cache_predict.Common.{
  ℕ, zero, suc, ◌-◌, ◌%◌, ◌≤◌, ◌<◌, ◌≡◌, refl, subst, true, false, ◌&&◌, none, some, [], ◌∷◌, ◌++◌,
  leb, ltb, arith, length, length-drop, drop, get_elem?, All, Option-cases, inl, inr, get_elem?-lt,
  if_cases,
}
use native.Mathlib.Nat.{mod-lt}
use cache_predict.Common.Words.{Bytes}
use cache_predict.Common.Dict.{
  lookup, insert, bytes_key, length-insert, length-insert_old, length-remove_at, All-insert,
  All-remove, All-lookup,
}
use cache_predict.Dense.Sessions.{
  DenseStep, History, Sessions, last_step, history_of, keep_last, evict, is_new, max_sessions,
  track,
}

abbrev pub IsRoute : ℕ → DenseStep → Type 0
IsRoute max_routes s = s.id < max_routes

abbrev pub IsSession : ℕ → ℕ → Bytes × History → Type 0
IsSession max_history max_routes e = (length e.1 ≤ max_history) × All (IsRoute max_routes) e.1

abbrev pub IsShard : ℕ → ℕ → Sessions → Type 0
IsShard max_history max_routes sessions =
    (length sessions ≤ max_sessions) × All (IsSession max_history max_routes) sessions

module _ (P : DenseStep → Type 0) where
  All-drop : (n : ℕ) (hist : History) → All P hist → All P (drop n hist)
  All-drop zero hist h = h
  All-drop (suc n) [] h = tt
  All-drop (suc n) (s ∷ hist) h = All-drop n hist h.1

  All-push : (hist : History) (s : DenseStep) → All P hist → P s → All P (hist ++ s ∷ [])
  All-push [] s h p = (p, tt)
  All-push (t ∷ hist) s h p = (h.0, All-push hist s h.1 p)

  pub All-last_step : (hist : History) (s : DenseStep) → All P hist → last_step hist ≡ some s → P s
  All-last_step [] s h e = absurd (cc)
  All-last_step (t ∷ []) s h e = let q : t ≡ s = cc in subst P q h.0
  All-last_step (t ∷ u ∷ hist) s h e = All-last_step (u ∷ hist) s h.1 e

length-keep_last : (n : ℕ) (hist : History) → length (keep_last n hist) ≤ n
unfolding keep_last
length-keep_last n hist = ground (arith, length-drop (length hist - n) hist)

All-keep_last :
    (P : DenseStep → Type 0) (n : ℕ) (hist : History) → All P hist → All P (keep_last n hist)
unfolding keep_last
All-keep_last P n hist h =
    if_cases (All P) (ltb n (length hist)) _ _ (λ _. All-drop P _ hist h) (λ _. h)

history_of-none :
    (session : Bytes) (sessions : Sessions)
    → lookup session sessions ≡ none
    → history_of session sessions ≡ []
unfolding history_of
history_of-none session sessions e = rw (history_of, e) refl

history_of-some :
    (session : Bytes) (hist : History) (sessions : Sessions)
    → lookup session sessions ≡ some hist
    → history_of session sessions ≡ hist
unfolding history_of
history_of-some session hist sessions e = rw (history_of, e) refl

length-evict :
    (victim : ℕ) (sessions : Sessions)
    → 0 < length sessions
    → length (evict victim sessions) < length sessions
unfolding evict
length-evict victim sessions h =
    let (entry, e) = get_elem?-lt sessions (victim % length sessions) (mod-lt victim h) in
    rw (length, evict, e) (length-remove_at sessions (victim % length sessions) entry e)

-- Only a session without a history can be one that is not there yet.
length-insert_known :
    (session : Bytes) (hist : History) (sessions : Sessions)
    → is_new (history_of session sessions) ≡ false
    → length (insert session hist sessions) ≡ length sessions
length-insert_known session hist sessions h = elim (Option-cases (lookup session sessions)) [
  | inl e ↦ absurd (cc (h, history_of-none session sessions e))
  | inr (old, e) ↦ length-insert_old session hist old sessions e
]

module _ (max_history max_routes : ℕ) where
  abbrev Good : Bytes × History → Type 0
  Good = IsSession max_history max_routes

  pub history_of-IsSession :
      (session : Bytes) (sessions : Sessions)
      → All Good sessions
      → Good (session, history_of session sessions)
  history_of-IsSession session sessions h = elim (Option-cases (lookup session sessions)) [
    | inl e ↦ rw (history_of-none session sessions e) (omega arith, tt)
    | inr (hist, e) ↦
        rw (history_of-some session hist sessions e) (All-lookup Good session hist sessions h e)
  ]

  All-evict :
      (victim : ℕ) (sessions : Sessions) → All Good sessions → All Good (evict victim sessions)
  unfolding evict
  All-evict victim sessions h =
      elim (Option-cases (get_elem? sessions (victim % length sessions))) [
        | inl e ↦ rw (evict, e) h
        | inr (entry, e) ↦ rw (evict, e) (All-remove Good entry.0 sessions h)
      ]

  pub track-IsShard :
      (victim : ℕ) (session : Bytes) (step : DenseStep) (sessions : Sessions)
      → IsShard max_history max_routes sessions
      → step.id < max_routes
      → IsShard max_history max_routes (track victim max_history session step sessions)
  unfolding track
  track-IsShard victim session step sessions (few, h) k =
      let old = history_of-IsSession session sessions h in
      let hist = history_of session sessions ++ step ∷ [] in
      let kept : Good (session, keep_last max_history hist) = (
        length-keep_last max_history hist,
        All-keep_last (IsRoute max_routes) max_history hist
            (All-push (IsRoute max_routes) (history_of session sessions) step old.1 k),
      ) in
      if_cases
        (λ room. IsShard max_history max_routes (insert session (keep_last max_history hist) room))
        (is_new (history_of session sessions) && leb max_sessions (length sessions))
        (evict victim sessions) sessions
        (λ e. (
          omega (
            arith,
            length-insert session (keep_last max_history hist) (evict victim sessions),
            length-evict victim sessions (full e),
          ),
          All-insert Good session (keep_last max_history hist) (evict victim sessions) kept
              (All-evict victim sessions h),
        ))
        (λ e. (room e, All-insert Good session (keep_last max_history hist) sessions kept h))
    where
      full :
          (is_new (history_of session sessions) && leb max_sessions (length sessions)) ≡ true
          → 0 < length sessions
      full e = ground arith

      room :
          (is_new (history_of session sessions) && leb max_sessions (length sessions)) ≡ false
          → length (
              insert session
                (keep_last max_history (history_of session sessions ++ step ∷ []))
                sessions)
            ≤ max_sessions
      room e = ground (
        arith,
        few,
        length-insert session (keep_last max_history (history_of session sessions ++ step ∷ []))
            sessions,
        length-insert_known session
            (keep_last max_history (history_of session sessions ++ step ∷ [])) sessions,
      )
