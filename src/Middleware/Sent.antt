-- ===== src/Middleware/Sent.antt =====
-- The bytes that each part of the handler sends.
use cache_predict.Common.{
  ℕ, ◌≡◌, ◌∙◌, sym, ap, inl, inr, refl, true, false, not, ◌&&◌, List, [], ◌∷◌, ◌++◌, append-nil,
  append_assoc, arith, Bool-cases,
}
use cache_predict.Common.Int.{ℤ}
use cache_predict.Common.Words.{Bytes}
use cache_predict.Common.Text.{codes}
use cache_predict.Entry.{ResponseEntry}
use cache_predict.Http
use cache_predict.Middleware.{
  Predictor, Clock, Ask, Served, can_cache, new_entry, put_entry, visit, visit_and_prefetch,
  trigger_prefetch, link, reply, write_response,
}
use cache_predict.Middleware.Leader.{captured}
use cache_predict.Middleware.Serve.{has_left, upstream, capture, direct, share, serve_own}
use cache_predict.Request.{Request}
use cache_predict.Store.{Store}
use cache_predict.Vary.{names_none, vary_key}
use cache_predict.Writer.{
  Client, CapturingResponseWriter, Call, edit_header, write_header_call, write_call, flush_call,
  hijack_call, run_client, client_step, send, send_header, flush_client,
}
use cache_predict.Writer.Laws.{IsOrderly, IsFaithful, run-IsFaithful, written_by}
use cache_predict.Writer.Commits.{run-IsHeld}

pub run_client-sent :
    (calls : List Call) (w : Client) → (run_client calls w).sent ≡ w.sent ++ written_by calls
unfolding run_client client_step written_by send send_header flush_client
run_client-sent [] w = sym (append-nil w.sent)
run_client-sent (edit_header f ∷ calls) w = run_client-sent calls _
run_client-sent (write_header_call code ∷ calls) w = run_client-sent calls _
run_client-sent (write_call b ∷ calls) w =
    run_client-sent calls (send b w) ∙ append_assoc w.sent b (written_by calls)
run_client-sent (flush_call ∷ calls) w =
    run_client-sent calls (flush_client w) ∙ ap (λ x. x ++ written_by calls) (flush-sent w)
  where
    flush-sent : (w : Client) → (flush_client w).sent ≡ w.sent
    flush-sent w = ground arith
run_client-sent (hijack_call ∷ calls) w = run_client-sent calls w

pub reply-sent :
    (h : Http.Header) (content_type : Bytes) (code : ℕ) (body : Bytes) (w : Client)
    → (reply h content_type code body w).sent ≡ w.sent ++ body
unfolding reply send send_header
reply-sent h content_type code body w = refl

pub write_response-sent :
    (e : ResponseEntry) (w : Client) → (write_response e w).sent ≡ w.sent ++ e.body
unfolding write_response send send_header
write_response-sent e w = refl

module _ {S P : Type 0} (predictor : Predictor P) where
  pub visit-w : (a : Ask) (s : Served S P) → (visit predictor a s).w ≡ s.w
  unfolding visit
  visit-w a s = ground arith

  trigger_prefetch-sent :
      (a : Ask) (s : Served S P) → (trigger_prefetch predictor a s).w.sent ≡ s.w.sent
  unfolding trigger_prefetch link
  trigger_prefetch-sent a s = ground arith

  pub visit_and_prefetch-sent :
      (a : Ask) (s : Served S P) → (visit_and_prefetch predictor a s).w.sent ≡ s.w.sent
  unfolding visit_and_prefetch
  visit_and_prefetch-sent a s =
      let told = trigger_prefetch-sent a (visit predictor a s) ∙ ap (λ w. w.sent) (visit-w a s) in
      ground (arith, told)

module _ (sum64 : Bytes → ℕ) {S P : Type 0} (store : Store S) (predictor : Predictor P)
    (next : Request → List Call)
    (set-body : (now : ℕ) (key : Bytes) (e : ResponseEntry) (ttl : ℤ) (s : S)
      → (store.set now key e ttl s).1.body ≡ e.body) where
  module _ (t : Clock) (a : Ask) (s : Served S P) (o : IsOrderly false (next a.r)) where
    abbrev rec : CapturingResponseWriter
    rec = upstream sum64 store predictor next a s

    faithful : IsFaithful s.w s.e.config.max_response_size (written_by (next a.r)) rec
    faithful = run-IsFaithful s.w s.e.config.max_response_size (next a.r) o

    -- A response that has left is all with the client.
    pub left-sent : has_left rec ≡ true → rec.w.sent ≡ s.w.sent ++ written_by (next a.r)
    left-sent left =
        let held = run-IsHeld s.w s.e.config.max_response_size (next a.r) in
        let streams : rec.streaming ≡ true = ground (arith, left, held.overflows) in
        sym (append-nil rec.w.sent)
        ∙ ap (λ b. rec.w.sent ++ b) (sym (faithful.drained streams))
        ∙ faithful.conserved

    -- A response that waits is all in the buffer.
    pub whole-body : has_left rec ≡ false → s.w.sent ++ rec.buf ≡ s.w.sent ++ written_by (next a.r)
    whole-body whole =
        let same : rec.w ≡ s.w = faithful.untouched (ground (arith, whole)) in
        sym (ap (λ w. w.sent ++ rec.buf) same) ∙ faithful.conserved

    pub captured-sent :
        has_left rec ≡ false → (captured sum64 store predictor next t a s).1.w.sent ≡ s.w.sent
    unfolding capture
    captured-sent whole =
        let same : rec.w ≡ s.w = faithful.untouched (ground (arith, whole)) in
        elim (Bool-cases (can_cache a rec && not a.no_store)) [
          | inl e ↦ rw (capture, e) (ap (λ w. w.sent) same)
          | inr e ↦ rw (capture, e) (ap (λ w. w.sent) same)
        ]

    put_entry-body :
        (e : ResponseEntry) → (put_entry sum64 store t s.e.config.ttl a e s.e.store).0.body ≡ e.body
    unfolding put_entry
    put_entry-body e =
        let vary_header = Http.get e.header (codes "Vary") in
        let once = set-body t.stored a.key e s.e.config.ttl s.e.store in
        let (taken, e1, s1) = store.set t.stored a.key e s.e.config.ttl s.e.store in
        elim (Bool-cases (names_none vary_header)) [
          | inl none_named ↦ rw (put_entry, none_named) once
          | inr named ↦
              rw (put_entry, named)
                (set-body t.stored_vary (vary_key sum64 a.key vary_header a.r.header) e1
                    s.e.config.ttl s1
                  ∙ once)
        ]

    pub captured-body : (captured sum64 store predictor next t a s).0.body ≡ rec.buf
    unfolding capture new_entry
    captured-body = elim (Bool-cases (can_cache a rec && not a.no_store)) [
      | inl e ↦ rw (capture, e) (put_entry-body (new_entry t s.e.config.ttl a.r rec))
      | inr e ↦ rw (capture, e) refl
    ]

    pub direct-sent :
        (direct sum64 store predictor next t a s).w.sent ≡ s.w.sent ++ written_by (next a.r)
    unfolding direct
    direct-sent = elim (Bool-cases (has_left rec)) [
      | inl e ↦
          rw (direct, e)
            (ap (λ w. w.sent) (visit-w predictor a (record s { w = rec.w })) ∙ left-sent e)
      | inr e ↦
          rw (direct, e)
            (reply-sent _ _ _ rec.buf _
              ∙ ap (λ x. x ++ rec.buf)
                  (visit_and_prefetch-sent predictor a (captured sum64 store predictor next t a s).1
                    ∙ captured-sent e)
              ∙ whole-body e)
    ]

    pub share-sent :
        (e : ResponseEntry) (x : Served S P)
        → (share sum64 store predictor next a e x).w.sent ≡ x.w.sent ++ e.body
    unfolding share
    share-sent e x =
        reply-sent _ _ _ e.body _ ∙ ap (λ y. y ++ e.body) (visit_and_prefetch-sent predictor a x)

    pub serve_own-sent :
        (e : ResponseEntry) (x : Served S P)
        → (serve_own sum64 store predictor next a e x).w.sent ≡ x.w.sent ++ e.body
    unfolding serve_own
    serve_own-sent e x =
        reply-sent _ _ _ e.body _ ∙ ap (λ y. y ++ e.body) (visit_and_prefetch-sent predictor a x)
