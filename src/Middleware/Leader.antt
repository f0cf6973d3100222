-- ===== src/Middleware/Leader.antt =====
-- The four ways of a leader.
use cache_predict.Common.{
  ℕ, ◌≡◌, ◌∙◌, ap, refl, true, false, not, ◌&&◌, Option, none, some, List, arith,
}
use cache_predict.Common.Words.{Bytes}
use cache_predict.Coalesce.{CallError, not_shareable, streaming_response}
use cache_predict.Entry.{ResponseEntry}
use cache_predict.Middleware.{Predictor, Clock, Ask, Served, can_cache, find_cached, visit}
use cache_predict.Middleware.Serve.{
  Led, has_left, upstream, capture, lead, share, serve_own, finish_leader, has_streamed, own_entry,
}
use cache_predict.Request.{Request}
use cache_predict.Store.{Store}
use cache_predict.Writer.{CapturingResponseWriter, Call}
use cache_predict.Writer.Commits.{run-IsHeld}

module _ (sum64 : Bytes → ℕ) {S P : Type 0} (store : Store S) (predictor : Predictor P)
    (next : Request → List Call) (t : Clock) (a : Ask) (s : Served S P) where
  abbrev pub response : CapturingResponseWriter
  response = upstream sum64 store predictor next a s

  abbrev pub captured : ResponseEntry × Served S P
  captured = capture sum64 store predictor next t a response s

  abbrev finish : Led S P → Served S P
  finish = finish_leader sum64 store predictor next t a

  abbrev pub led : Served S P
  led = finish_leader sum64 store predictor next t a (lead sum64 store predictor next t a s)

  pub lead_cached :
      (entry : ResponseEntry)
      → find_cached sum64 store t.checked t.checked_vary a s.e.store ≡ some entry
      → lead sum64 store predictor next t a s
        ≡ record { entry = some entry; err = none; recorder = none; leader_entry = none; after = s }
  unfolding lead
  lead_cached entry e = rw (lead, e) refl

  pub leader_cached :
      (entry : ResponseEntry)
      → find_cached sum64 store t.checked t.checked_vary a s.e.store ≡ some entry
      → led ≡ share sum64 store predictor next a entry s
  unfolding finish_leader has_streamed
  leader_cached entry e = ap finish (lead_cached entry e)

  finish_left :
      (rec : CapturingResponseWriter) (entry : Option ResponseEntry) (err : Option CallError)
      (kept : Option ResponseEntry) (after : Served S P)
      → has_left rec ≡ true
      → finish (record {
        entry = entry;
        err = err;
        recorder = some rec;
        leader_entry = kept;
        after = after;
      })
        ≡ visit predictor a after
  unfolding finish_leader has_streamed
  finish_left rec entry err kept after left = rw (left) refl

  finish_shares :
      (rec : CapturingResponseWriter) (entry : ResponseEntry) (kept : Option ResponseEntry)
      (after : Served S P)
      → has_left rec ≡ false
      → finish (record {
        entry = some entry;
        err = none;
        recorder = some rec;
        leader_entry = kept;
        after = after;
      })
        ≡ share sum64 store predictor next a entry after
  unfolding finish_leader has_streamed
  finish_shares rec entry kept after whole = rw (whole) refl

  finish_keeps :
      (rec : CapturingResponseWriter) (entry : ResponseEntry) (after : Served S P)
      → has_left rec ≡ false
      → rec.header_written ≡ false
      → finish (record {
        entry = none;
        err = some not_shareable;
        recorder = some rec;
        leader_entry = some entry;
        after = after;
      })
        ≡ serve_own sum64 store predictor next a entry after
  unfolding finish_leader has_streamed own_entry
  finish_keeps rec entry after whole held = rw (whole, held) refl

  module _ (e : find_cached sum64 store t.checked t.checked_vary a s.e.store ≡ none) where
    pub lead_left :
        has_left response ≡ true
        → lead sum64 store predictor next t a s ≡ record {
          entry = none;
          err = some streaming_response;
          recorder = some response;
          leader_entry = none;
          after = record s { w = response.w };
        }
    unfolding lead
    lead_left left = rw (lead, e, left) refl

    pub leader_left :
        has_left response ≡ true → led ≡ visit predictor a (record s { w = response.w })
    leader_left left =
        ap finish (lead_left left)
        ∙ finish_left response none (some streaming_response) none (record s { w = response.w })
            left

    pub lead_shares :
        has_left response ≡ false
        → (can_cache a response && not a.no_store) ≡ true
        → lead sum64 store predictor next t a s ≡ record {
          entry = some captured.0;
          err = none;
          recorder = some response;
          leader_entry = some captured.0;
          after = captured.1;
        }
    unfolding lead
    lead_shares whole can = rw (lead, e, whole, can) refl

    pub leader_shares :
        has_left response ≡ false
        → (can_cache a response && not a.no_store) ≡ true
        → led ≡ share sum64 store predictor next a captured.0 captured.1
    leader_shares whole can =
        ap finish (lead_shares whole can)
        ∙ finish_shares response captured.0 (some captured.0) captured.1 whole

    pub lead_keeps :
        has_left response ≡ false
        → (can_cache a response && not a.no_store) ≡ false
        → lead sum64 store predictor next t a s ≡ record {
          entry = none;
          err = some not_shareable;
          recorder = some response;
          leader_entry = some captured.0;
          after = captured.1;
        }
    unfolding lead
    lead_keeps whole cannot = rw (lead, e, whole, cannot) refl

    pub leader_keeps :
        has_left response ≡ false
        → (can_cache a response && not a.no_store) ≡ false
        → led ≡ serve_own sum64 store predictor next a captured.0 captured.1
    leader_keeps whole cannot =
        let held : response.header_written ≡ false =
          (run-IsHeld s.w s.e.config.max_response_size (next a.r)).commits
            (ground (arith, whole)) in
        ap finish (lead_keeps whole cannot) ∙ finish_keeps response captured.0 captured.1 whole held
