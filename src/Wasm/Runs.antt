-- ===== src/Wasm/Runs.antt =====
-- A page that visits two paths and asks what comes next.
use cache_predict.Common.{◌≡◌, refl, Option, none, some, List, [], ◌∷◌, length}
use cache_predict.Common.Int.{ℤ, pos}
use cache_predict.Common.Words.{Bytes}
use cache_predict.Common.Text.{codes, split_once}
use cache_predict.ClientAssets.{call_url}
use cache_predict.Dense.Ops.{Prediction}
use cache_predict.Wasm.{
  page_predictor, Rules, rules_of, Output, PageCall, records, predicts, asks_rules, top_k_of,
  run_page,
}
use cache_predict.Wasm.Safety.{run_page_total}

-- The values that this page passes: texts and numbers.
data Value : Type 0 where
  words : Bytes → Value
  number : ℤ → Value

abbrev text_of : Value → Bytes
text_of (words s) = s
text_of (number k) = codes "<number>"

abbrev int_of : Value → Option ℤ
int_of (words s) = none
int_of (number k) = some k

abbrev first_call : List Prediction → Option Bytes
first_call [] = none
first_call (p ∷ preds) = some p.call

abbrev first_url : Rules → Option Bytes
first_url r = elim r.urls [ [] ↦ none | u ∷ us ↦ some u ]

abbrev visits : List (PageCall Value)
visits =
    records 0 (words (codes "get") ∷ words (codes "/a?q=1") ∷ [])
    ∷ records 0 (words (codes "get") ∷ [])
    ∷ predicts []
    ∷ asks_rules (number (pos 2) ∷ [])
    ∷ []

run_page_total_example :
    (outs : List Output) × (run_page length text_of int_of first_call first_url visits
        page_predictor
      ≡ some outs)
    × (length outs ≡ 4)
unfolding top_k_of
run_page_total_example =
    run_page_total length text_of int_of first_call first_url visits
      (tt, (tt, ((3, refl), ((2, refl), tt))))

-- The urls of the rules are the calls without their methods.
rules_urls :
    (rules_of (record { call = codes "GET /a b"; pattern = []; count = 1; total = 1 } ∷ [])).urls
    ≡ codes "/a b" ∷ []
unfolding rules_of call_url split_once
rules_urls = refl
