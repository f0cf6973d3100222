-- ===== src/Middleware/Boundary.antt =====
-- What crosses from a leader's request to its followers'.
use cache_predict.Common.{
  ℕ, ◌≡◌, ◌⊎◌, ◌∙◌, ap, sym, inl, inr, refl, true, not, ◌&&◌, none, some, List, Bool-cases,
  Option-cases,
}
use cache_predict.Common.Words.{Bytes}
use cache_predict.Coalesce.{returned, Outcome, result, published, finished, System, Reach}
use cache_predict.Coalesce.Safety.{follower_result}
use cache_predict.Entry.{ResponseEntry}
use cache_predict.Middleware.{
  Predictor, Clock, Ask, Served, can_cache, new_entry, find_cached, put_entry,
}
use cache_predict.Middleware.Caching.{MayBeShared, can_cache-MayBeShared}
use cache_predict.Middleware.Leader.{
  response, captured, lead_cached, lead_left, lead_shares, lead_keeps,
}
use cache_predict.Middleware.Serve.{Led, has_left, lead, capture}
use cache_predict.Request.{Request}
use cache_predict.Store.{Store}
use cache_predict.Writer.{Call}

module _ (sum64 : Bytes → ℕ) {S P : Type 0} (store : Store S) (predictor : Predictor P)
    (next : Request → List Call) (t : Clock) (a : Ask) (s : Served S P) where
  -- An entry that the leader itself may read from the cache, or its own response, which may be shared.
  abbrev pub IsShareable : ResponseEntry → Type 0
  IsShareable e =
      (find_cached sum64 store t.checked t.checked_vary a s.e.store ≡ some e)
      ⊎ (MayBeShared a (response sum64 store predictor next t a s)
          × (e
              ≡ (put_entry sum64 store t s.e.config.ttl a
                  (new_entry t s.e.config.ttl a.r (response sum64 store predictor next t a s))
                  s.e.store).0))

  abbrev led_by : Led S P
  led_by = lead sum64 store predictor next t a s

  captured-put_entry :
      (can_cache a (response sum64 store predictor next t a s) && not a.no_store) ≡ true
      → (captured sum64 store predictor next t a s).0
        ≡ (put_entry sum64 store t s.e.config.ttl a
            (new_entry t s.e.config.ttl a.r (response sum64 store predictor next t a s))
            s.e.store).0
  unfolding capture
  captured-put_entry can = rw (capture, can) refl

  lead-IsShareable : (e : ResponseEntry) → led_by.entry ≡ some e → led_by.err ≡ none → IsShareable e
  lead-IsShareable e p q =
      let rec = response sum64 store predictor next t a s in
      elim (Option-cases (find_cached sum64 store t.checked t.checked_vary a s.e.store)) [
        | inr (cached, f) ↦
            let same : some cached ≡ some e =
              sym (ap (λ l. l.entry) (lead_cached sum64 store predictor next t a s cached f)) ∙ p in
            inl (f ∙ same)
        | inl f ↦ elim (Bool-cases (has_left rec)) [
          | inl left ↦
              absurd (cc (p, ap (λ l. l.entry) (lead_left sum64 store predictor next t a s f left)))
          | inr whole ↦ elim (Bool-cases (can_cache a rec && not a.no_store)) [
            | inr cannot ↦ absurd (
                cc (
                  p,
                  ap (λ l. l.entry) (lead_keeps sum64 store predictor next t a s f whole cannot),
                ))
            | inl can ↦
                let same : some (captured sum64 store predictor next t a s).0 ≡ some e =
                  sym (ap (λ l. l.entry) (lead_shares sum64 store predictor next t a s f whole can))
                  ∙ p in
                let kept : (captured sum64 store predictor next t a s).0 ≡ e = cc in
                inr (can_cache-MayBeShared a rec can whole, sym kept ∙ captured-put_entry can)
          ]
        ]
      ]

  -- Among callers of DoContext, where a leader's function was the middleware's for a request and has
  -- returned: a follower that gets an entry without an error, and so serves it, has an entry that the
  -- cache gave the leader at its second look, or the leader's own response as Set left it, and then
  -- that response may be shared.
  pub finished-IsShareable :
      (keys : ℕ → Bytes) {n : ℕ} {group : System}
      → Reach keys n group
      → (i j c : ℕ) (o : Outcome) (e : ResponseEntry)
      → group.pc i ≡ published c (returned led_by.entry led_by.err) o
      → group.pc j ≡ finished c (result (some e) none)
      → IsShareable e
  finished-IsShareable keys reach i j c o e p q =
      let (same, own, key) = follower_result keys reach i j c _ o (some e) none p q in
      lead-IsShareable e (cc) (cc)
