-- ===== src/Dense/Hydrate/Privacy.antt =====
-- The calls predicted for routes with placeholders come from the session alone.
use cache_predict.Common.{ℕ, ◌≡◌, refl, sym, ◌∙◌, false, Option-cases, inl, inr}
use cache_predict.Common.Words.{Bytes}
use cache_predict.Common.Dict.{Dict}
use cache_predict.Common.Text.{split_once}
use cache_predict.Dense.Sessions.{DenseStep}
use cache_predict.Dense.Hydrate.{is_static, hydrate_call, carry_query}

carry_query_not :
    (pattern known call : Bytes) → is_static pattern ≡ false → carry_query pattern known call ≡ call
unfolding carry_query
carry_query_not pattern known call e = rw e refl

-- The call for a pattern with a placeholder does not depend on the calls that the predictor keeps for all
-- sessions, nor on the id of the route.
pub hydrate_call_private :
    (concrete concrete' : Dict ℕ Bytes) (id id' : ℕ) (pattern : Bytes) (last : DenseStep)
    → is_static pattern ≡ false
    → hydrate_call concrete id pattern last ≡ hydrate_call concrete' id' pattern last
unfolding hydrate_call
hydrate_call_private concrete concrete' id id' pattern last e =
    elim (Option-cases (split_once b' ' pattern)) [
      | inl q ↦ rw (hydrate_call, q) refl
      | inr p ↦
          rw (hydrate_call, p.1)
            (carry_query_not pattern _ _ e ∙ sym (carry_query_not pattern _ _ e))
    ]
