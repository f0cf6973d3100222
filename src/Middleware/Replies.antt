-- ===== src/Middleware/Replies.antt =====
-- What the client of a request gets.
use cache_predict.Common.{
  ℕ, ◌≡◌, ◌∙◌, sym, ap, ◌⊎◌, inl, inr, refl, false, not, ◌&&◌, none, some, List, ◌++◌, arith,
  Bool-cases, Option-cases, if◌then◌else◌,
}
use cache_predict.Common.Int.{ℤ}
use cache_predict.Common.Words.{Bytes}
use cache_predict.Common.Text.{is_empty}
use cache_predict.ClientAssets.{Assets, serve_client_assets}
use cache_predict.Entry.{ResponseEntry}
use cache_predict.Middleware.{
  HttpCookie, write_session_cookie, Predictor, Clock, Ask, Served, can_cache, ask, find_cached,
}
use cache_predict.Middleware.Leader.{
  led, leader_cached, leader_left, leader_shares, leader_keeps, captured, response,
}
use cache_predict.Middleware.Paths.{
  opened, asked, opened_engine, serve-cases, serve_cacheable-hit, serve_cacheable-miss,
}
use cache_predict.Middleware.Serve.{
  Role, leads, follows, has_left, miss, hit, looked_up, serve_cacheable, pass_through, serve,
  coalesce_key, take_part, finish_follower, open_session,
}
use cache_predict.Request.{Request}
use cache_predict.Store.{Store}
use cache_predict.Telemetry.{record_miss}
use cache_predict.Writer.{Client, Call}
use cache_predict.Writer.Laws.{IsOrderly, written_by}
use cache_predict.Middleware.Sent.{
  run_client-sent, write_response-sent, visit-w, visit_and_prefetch-sent, left-sent, whole-body,
  captured-sent, captured-body, direct-sent, share-sent, serve_own-sent,
}

module _ (sum64 : Bytes → ℕ) {S P : Type 0} (store : Store S) (predictor : Predictor P)
    (next : Request → List Call) where
  -- Where an entry that is served comes from: the cache, the leader's second look into it, or the
  -- leader that the request has followed.
  abbrev pub IsEntryFor : Clock → Role → Ask → Served S P → ResponseEntry → Type 0
  IsEntryFor t role a s e =
      (looked_up sum64 store predictor next t a s ≡ some e)
      ⊎ (((role ≡ leads) × (find_cached sum64 store t.checked t.checked_vary a s.e.store ≡ some e))
          ⊎ (role ≡ follows (some e) none))

  -- The client gets all that the handler writes, or the body of an entry.
  pub IsAnswered : Clock → Role → Ask → Served S P → Bytes → Type 0
  IsAnswered t role a s sent =
      (sent ≡ s.w.sent ++ written_by (next a.r))
      ⊎ ((e : ResponseEntry) × IsEntryFor t role a s e × (sent ≡ s.w.sent ++ e.body))

module _ (sum64 : Bytes → ℕ) {S P : Type 0} (store : Store S) (predictor : Predictor P)
    (next : Request → List Call)
    (set-body : (now : ℕ) (key : Bytes) (e : ResponseEntry) (ttl : ℤ) (s : S)
      → (store.set now key e ttl s).1.body ≡ e.body) where
  module _ (t : Clock) (a : Ask) (s : Served S P) (o : IsOrderly false (next a.r)) where
    led-IsAnswered :
        IsAnswered sum64 store predictor next t leads a s
          (led sum64 store predictor next t a s).w.sent
    unfolding IsAnswered
    led-IsAnswered =
        let before = captured sum64 store predictor next t a s in
        elim (Option-cases (find_cached sum64 store t.checked t.checked_vary a s.e.store)) [
          | inr (cached, e) ↦ inr (
            cached,
            inr (inl (refl, e)),
            ap (λ x. x.w.sent) (leader_cached sum64 store predictor next t a s cached e)
                ∙ share-sent sum64 store predictor next set-body t a s o cached s,
          )
          | inl e ↦ inl (elim (Bool-cases (has_left (response sum64 store predictor next t a s))) [
            | inl left ↦
                ap (λ x. x.w.sent) (leader_left sum64 store predictor next t a s e left)
                ∙ ap (λ w. w.sent) (visit-w predictor a _)
                ∙ left-sent sum64 store predictor next set-body t a s o left
            | inr whole ↦
                let body =
                  ap (λ x. x ++ before.0.body)
                    (captured-sent sum64 store predictor next set-body t a s o whole)
                  ∙ ap (λ x. s.w.sent ++ x)
                      (captured-body sum64 store predictor next set-body t a s o)
                  ∙ whole-body sum64 store predictor next set-body t a s o whole in
                elim (Bool-cases
                  (can_cache a (response sum64 store predictor next t a s) && not a.no_store)) [
                    | inl can ↦
                        ap (λ x. x.w.sent)
                          (leader_shares sum64 store predictor next t a s e whole can)
                        ∙ share-sent sum64 store predictor next set-body t a s o before.0 before.1
                        ∙ body
                    | inr cannot ↦
                        ap (λ x. x.w.sent)
                          (leader_keeps sum64 store predictor next t a s e whole cannot)
                        ∙ serve_own-sent sum64 store predictor next set-body t a s o before.0
                            before.1
                        ∙ body
                  ]
          ])
        ]

    take_part-IsAnswered :
        (role : Role)
        → IsAnswered sum64 store predictor next t role a s
            (take_part sum64 store predictor next t role a s).w.sent
    unfolding IsAnswered finish_follower
    take_part-IsAnswered leads = led-IsAnswered
    take_part-IsAnswered (follows (some e) none) =
        inr (e, inr (inr refl), share-sent sum64 store predictor next set-body t a s o e s)
    take_part-IsAnswered (follows none none) =
        inl (direct-sent sum64 store predictor next set-body t a s o)
    take_part-IsAnswered (follows entry (some err)) =
        inl (direct-sent sum64 store predictor next set-body t a s o)

  miss-IsAnswered :
      (t : Clock) (role : Role) (a : Ask) (s : Served S P)
      → IsOrderly false (next a.r)
      → IsAnswered sum64 store predictor next t role a s
          (miss sum64 store predictor next t role a s).w.sent
  unfolding miss IsAnswered
  miss-IsAnswered t role a s o =
      let s' : Served S P = record s { e = record s.e { telemetry = record_miss s.e.telemetry } } in
      elim (Bool-cases (is_empty (coalesce_key sum64 store predictor next a s.e))) [
        | inl e ↦ rw (e) (inl (direct-sent sum64 store predictor next set-body t a s' o))
        | inr e ↦ rw (e) (take_part-IsAnswered t a s' o role)
      ]

  serve_cacheable-IsAnswered :
      (t : Clock) (role : Role) (a : Ask) (s : Served S P)
      → IsOrderly false (next a.r)
      → IsAnswered sum64 store predictor next t role a s
          (serve_cacheable sum64 store predictor next t role a s).w.sent
  unfolding hit IsAnswered
  serve_cacheable-IsAnswered t role a s o =
      elim (Option-cases (looked_up sum64 store predictor next t a s)) [
        | inl e ↦
            rw (serve_cacheable-miss sum64 store predictor next t role a s e)
              (miss-IsAnswered t role a s o)
        | inr (entry, e) ↦ inr (
          entry,
          inl e,
          ap (λ x. x.w.sent) (serve_cacheable-hit sum64 store predictor next t role a s entry e)
              ∙ write_response-sent entry _
              ∙ ap (λ x. x ++ entry.body) (visit_and_prefetch-sent predictor a _),
        )
      ]

  same-IsAnswered :
      (t : Clock) (role : Role) (a : Ask) (s s' : Served S P) (sent : Bytes)
      → s'.e ≡ s.e
      → s'.w.sent ≡ s.w.sent
      → IsAnswered sum64 store predictor next t role a s' sent
      → IsAnswered sum64 store predictor next t role a s sent
  unfolding IsAnswered
  same-IsAnswered t role a s s' sent e f (inl p) = inl (p ∙ ap (λ x. x ++ written_by (next a.r)) f)
  same-IsAnswered t role a s s' sent e f (inr (entry, from, p)) =
      inr (entry, origin from, p ∙ ap (λ x. x ++ entry.body) f)
    where
      origin :
          IsEntryFor sum64 store predictor next t role a s' entry
          → IsEntryFor sum64 store predictor next t role a s entry
      origin (inl q) = inl (
          ap
            (λ x.
              if a.no_cache then none else find_cached sum64 store t.looked t.looked_vary a x.store)
            (sym e)
          ∙ q)
      origin (inr (inl (leading, q))) = inr (
          inl (
            leading,
            ap (λ x. find_cached sum64 store t.checked t.checked_vary a x.store) (sym e) ∙ q,
          ))
      origin (inr (inr q)) = inr (inr q)

  module _ (assets : Assets) (new_session : Bytes) (set_cookie : HttpCookie → Client → Client)
      (set_cookie-sent : (cookie : HttpCookie) (w : Client) → (set_cookie cookie w).sent ≡ w.sent)
      (r : Request) (s : Served S P) where
    cookie-sent : (write_session_cookie set_cookie s.e.config new_session s.w).sent ≡ s.w.sent
    unfolding write_session_cookie
    cookie-sent = set_cookie-sent _ s.w

    pub opened-sent :
        (opened sum64 store predictor next assets new_session set_cookie r s).1.w.sent ≡ s.w.sent
    unfolding open_session
    opened-sent = ground (arith, cookie-sent)

    -- For a path that is none of the assets', where Set leaves an entry's body and SetCookie the bytes that
    -- are sent, and for a handler that does not hijack and calls WriteHeader only before its first
    -- Write: what the client gets behind what it had is all that the handler writes, in order, or the
    -- body of one entry, which the cache has for the request, or a leader finds at its second look,
    -- or a follower gets from its leader.
    pub serve-IsAnswered :
        (t : Clock) (role : Role)
        → serve_client_assets assets r.path s.w ≡ none
        → IsOrderly false (next r)
        → IsAnswered sum64 store predictor next t role
            (asked sum64 store predictor next assets new_session set_cookie r s)
            s
            (serve sum64 store predictor next assets new_session set_cookie t role r s).w.sent
    unfolding ask pass_through IsAnswered
    serve-IsAnswered t role not_asset o =
        let a = asked sum64 store predictor next assets new_session set_cookie r s in
        let s' = (opened sum64 store predictor next assets new_session set_cookie r s).1 in
        let same = opened_engine sum64 store predictor next assets new_session set_cookie r s in
        elim (serve-cases sum64 store predictor next assets new_session set_cookie r s t role) [
          | inl (w, e, is_asset) ↦ absurd (cc)
          | inr (inl skipped) ↦
              by_handler (ap (λ x. x.w.sent) skipped ∙ run_client-sent (next r) s.w)
          | inr (inr (inl passed)) ↦ by_handler (
              ap (λ x. x.w.sent) passed
              ∙ ap (λ w. w.sent) (visit-w predictor a _)
              ∙ run_client-sent (next r) _
              ∙ ap (λ x. x ++ written_by (next r)) opened-sent)
          | inr (inr (inr (cacheable, e))) ↦
              same-IsAnswered t role a s s' _ same opened-sent
                (rw (e) (serve_cacheable-IsAnswered t role a s' o))
        ]
      where
        by_handler :
            {sent : Bytes}
            → sent ≡ s.w.sent ++ written_by (next r)
            → IsAnswered sum64 store predictor next t role
                (asked sum64 store predictor next assets new_session set_cookie r s)
                s
                sent
        by_handler p = inl p
