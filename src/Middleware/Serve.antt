-- ===== src/Middleware/Serve.antt =====
-- The handler that Middleware returns, for one request. `next` is the application's handler, as the calls that
-- it makes; `new_session` what generateSessionID gives, and `set_cookie` http.SetCookie. A call of DoContext is the leader's own run of its function, or what a follower gets.
use cache_predict.Common.{
  ℕ, Bool, true, false, not, ◌&&◌, ◌||◌, Option, none, some, List, [], ◌∷◌, ◌++◌, if◌then◌else◌,
}
use cache_predict.Common.Words.{Bytes}
use cache_predict.Common.Text.{codes, is_empty}
use cache_predict.ClientAssets.{Assets, serve_client_assets}
use cache_predict.Coalesce.{CallError, not_shareable, streaming_response}
use cache_predict.Engine.{Engine, any_prefix}
use cache_predict.Entry.{ResponseEntry}
use cache_predict.Http
use cache_predict.Middleware.{
  HttpCookie, write_session_cookie, Predictor, Clock, Ask, Served, is_safe, is_bypassed,
  extract_session, can_cache, new_entry, reply, write_response, ask, find_cached, put_entry, visit,
  visit_and_prefetch,
}
use cache_predict.Request.{Request}
use cache_predict.Store.{Store}
use cache_predict.Telemetry.{record_hit, record_miss}
use cache_predict.Writer.{
  Client, CapturingResponseWriter, Call, new_writer, run, run_client, status_of,
}

pub data Role : Type 0 where
  leads : Role
  follows : Option ResponseEntry → Option CallError → Role

-- What a leader comes back with: the result of its function, and the variables that the function has set.
pub record Led (S P : Type 0) : Type 0 where
  pub entry : Option ResponseEntry
  pub err : Option CallError
  pub recorder : Option CapturingResponseWriter
  pub leader_entry : Option ResponseEntry
  pub after : Served S P

abbrev pub has_left : CapturingResponseWriter → Bool
has_left rec = rec.streaming || rec.overflow

module _ (sum64 : Bytes → ℕ) {S P : Type 0} (store : Store S) (predictor : Predictor P)
    (next : Request → List Call) where
  unfoldable pub coalesce_key : Ask → Engine S P → Bytes
  coalesce_key a e =
      if not a.no_cache
        && (not a.no_store && (a.is_public || (not a.is_auth && no_cookies a.r.cookies)))
      then a.key
      else if a.is_auth && e.config.coalesce_authenticated
      then a.key ++ (codes ":user:" ++ a.session)
      else []
    where
      no_cookies : {A : Type 0} → List A → Bool
      no_cookies [] = true
      no_cookies (c ∷ cookies) = false

  -- The application's handler behind a capturing writer.
  abbrev pub upstream : Ask → Served S P → CapturingResponseWriter
  upstream a s = run (next a.r) (new_writer s.w s.e.config.max_response_size)

  -- What the two paths do with a captured response: the entry, as Set leaves it where it is cached.
  unfoldable pub capture :
      Clock → Ask → CapturingResponseWriter → Served S P → ResponseEntry × Served S P
  capture t a rec s =
      let ttl = s.e.config.ttl in
      let entry = new_entry t ttl a.r rec in
      let (kept, store') = put_entry sum64 store t ttl a entry s.e.store in
      if can_cache a rec && not a.no_store
      then (kept, record { w = rec.w; e = record s.e { store = store' } })
      else (entry, record { w = rec.w; e = s.e })

  -- The leader's function.
  unfoldable pub lead : Clock → Ask → Served S P → Led S P
  lead t a s = elim (find_cached sum64 store t.checked t.checked_vary a s.e.store) [
    | some cached ↦ record {
      entry = some cached;
      err = none;
      recorder = none;
      leader_entry = none;
      after = s;
    }
    | none ↦
        let rec = upstream a s in
        let (entry, after) = capture t a rec s in
        if has_left rec
        then record {
          entry = none;
          err = some streaming_response;
          recorder = some rec;
          leader_entry = none;
          after = record s { w = rec.w };
        }
        else if can_cache a rec && not a.no_store
        then record {
          entry = some entry;
          err = none;
          recorder = some rec;
          leader_entry = some entry;
          after = after;
        }
        else record {
          entry = none;
          err = some not_shareable;
          recorder = some rec;
          leader_entry = some entry;
          after = after;
        }
  ]

  -- The path without coalescing. The headers of the reply are the entry's map, as Set has left it.
  unfoldable pub direct : Clock → Ask → Served S P → Served S P
  direct t a s =
      let rec = upstream a s in
      let (entry, after) = capture t a rec s in
      let left = visit predictor a (record s { w = rec.w }) in
      let told = visit_and_prefetch predictor a after in
      if has_left rec then left else record told {
        w =
            reply entry.header (Http.get rec.header (codes "Content-Type")) (status_of rec) rec.buf
              told.w;
      }

  -- Case A
  unfoldable pub share : Ask → ResponseEntry → Served S P → Served S P
  share a entry s =
      let told = visit_and_prefetch predictor a s in
      record told { w = reply entry.header entry.content_type entry.status_code entry.body told.w }

  -- Case B
  unfoldable pub serve_own : Ask → ResponseEntry → Served S P → Served S P
  serve_own a entry s =
      let told = visit_and_prefetch predictor a s in
      record told { w = reply entry.header [] entry.status_code entry.body told.w }

  -- The case for a result of DoContext; `none` is case C.
  abbrev pub shared_entry : Option ResponseEntry → Option CallError → Option ResponseEntry
  shared_entry entry none = entry
  shared_entry entry (some err) = none

  unfoldable pub own_entry : Led S P → Option ResponseEntry
  own_entry l = elim l.recorder [
    | none ↦ none
    | some rec ↦ if rec.header_written then none else l.leader_entry
  ]

  unfoldable pub has_streamed : Led S P → Bool
  has_streamed l = elim l.recorder [ none ↦ false | some rec ↦ has_left rec ]

  unfoldable pub finish_leader : Clock → Ask → Led S P → Served S P
  finish_leader t a l =
      if has_streamed l then visit predictor a l.after else elim (shared_entry l.entry l.err) [
        | some entry ↦ share a entry l.after
        | none ↦ elim (own_entry l) [
          | some entry ↦ serve_own a entry l.after
          | none ↦ direct t a l.after
        ]
      ]

  unfoldable pub finish_follower :
      Clock → Ask → Option ResponseEntry → Option CallError → Served S P → Served S P
  finish_follower t a entry err s = elim (shared_entry entry err) [
    | some entry ↦ share a entry s
    | none ↦ direct t a s
  ]

  abbrev pub take_part : Clock → Role → Ask → Served S P → Served S P
  take_part t leads a s = finish_leader t a (lead t a s)
  take_part t (follows entry err) a s = finish_follower t a entry err s

  unfoldable pub miss : Clock → Role → Ask → Served S P → Served S P
  miss t role a s =
      let s' : Served S P = record s { e = record s.e { telemetry = record_miss s.e.telemetry } } in
      if is_empty (coalesce_key a s.e) then direct t a s' else take_part t role a s'

  unfoldable pub hit : Ask → ResponseEntry → Served S P → Served S P
  hit a entry s =
      let told =
        visit_and_prefetch predictor a
          (record s { e = record s.e { telemetry = record_hit s.e.telemetry } }) in
      record told { w = write_response entry told.w }

  abbrev pub looked_up : Clock → Ask → Served S P → Option ResponseEntry
  looked_up t a s =
      if a.no_cache then none else find_cached sum64 store t.looked t.looked_vary a s.e.store

  unfoldable pub serve_cacheable : Clock → Role → Ask → Served S P → Served S P
  serve_cacheable t role a s = elim (looked_up t a s) [
    | some entry ↦ hit a entry s
    | none ↦ miss t role a s
  ]

  -- A request that goes straight to the application.
  unfoldable pub pass_through : Ask → Served S P → Served S P
  pass_through a s = visit predictor a (record s {
    w =
        run_client (next a.r)
          (record s.w { header = Http.set s.w.header (codes "X-Cache") (codes "MISS") });
  })

  -- The session, and the client with a cookie for it where it is new.
  unfoldable pub open_session :
      Bytes → (HttpCookie → Client → Client) → Request → Served S P → Bytes × Served S P
  open_session new_session set_cookie r s =
      let session = extract_session s.e.config r in
      if is_empty session
      then (
        new_session,
        record s { w = write_session_cookie set_cookie s.e.config new_session s.w },
      )
      else (session, s)

  unfoldable pub serve :
      Assets
      → Bytes
      → (HttpCookie → Client → Client)
      → Clock
      → Role
      → Request
      → Served S P
      → Served S P
  serve assets new_session set_cookie t role r s = elim (serve_client_assets assets r.path s.w) [
    | some w ↦ record s { w = w }
    | none ↦
        let (session, s') = open_session new_session set_cookie r s in
        let a = ask sum64 s'.e session r in
        if any_prefix s.e.config.skip_routes r.path
        then record s { w = run_client (next r) s.w }
        else if not (is_safe a.method) || is_bypassed r.header
        then pass_through a s'
        else serve_cacheable t role a s'
  ]
