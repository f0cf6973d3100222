-- ===== src/Coalesce/Safety.antt =====
-- The callers of one key, and the callers of one call.
use cache_predict.Common.{ℕ, ◌≡◌, Option, some, refl, ap, arith, ◌∙◌}
use cache_predict.Common.Words.{Bytes}
use cache_predict.Common.Dict.{lookup, bytes_key}
use cache_predict.Entry.{ResponseEntry}
use cache_predict.Coalesce.{
  CallError, FnResult, Outcome, result, running, published, finished, System, Reach,
}
use cache_predict.Coalesce.Views.{registers, agreed, own, registers-leads}
use cache_predict.Coalesce.Steps.{Reach-Inv}

module _ (keys : ℕ → Bytes) {n : ℕ} {s : System} (reach : Reach keys n s) (i j : ℕ) where
  -- In no reachable state are two different callers with one key in the function at the same time.
  pub single_flight : (c d : ℕ) → s.pc i ≡ running c → s.pc j ≡ running d → keys i ≡ keys j → i ≡ j
  single_flight c d p q same =
      let v = Reach-Inv keys reach in
      let p' : registers (s.pc i) ≡ some c = ap registers p in
      let q' : registers (s.pc j) ≡ some d = ap registers q in
      let one : c ≡ d =
        ground (arith, v.holding i c p', v.holding j d q', ap (λ k. lookup k s.group.calls) same) in
      v.unique i j c (registers-leads _ c p') (registers-leads _ c (rw one q'))

  -- When a leader has returned, a follower of its call that has got a result has the entry and the
  -- error of the leader's function, or no entry and the error of a panic where the function
  -- panicked; the leader itself returns with the same result or panics; and their keys are equal.
  pub follower_result :
      (c : ℕ) (r : FnResult) (o : Outcome) (e : Option ResponseEntry) (err : Option CallError)
      → s.pc i ≡ published c r o
      → s.pc j ≡ finished c (result e err)
      → (result e err ≡ agreed r) × (o ≡ own r) × (keys i ≡ keys j)
  follower_result c r o e err p q =
      let v = Reach-Inv keys reach in
      let (d, h, w) = v.spread i c r o (rw p refl) in
      let (f, g) = v.settled j c (result e err) (rw q refl) in
      (g ∙ h, w, v.same_key i j c (rw p refl) (rw q refl))
