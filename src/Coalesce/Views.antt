-- ===== src/Coalesce/Views.antt =====
-- What a caller's place says of its call.
use cache_predict.Common.{ℕ, ◌≡◌, Option, none, some, arith}
use cache_predict.Common.Dict.{bytes_key}
use cache_predict.Coalesce.{
  handler_panicked, FnResult, returned, panics, Outcome, result, panicked, Pc, idle, running,
  called, removed, waiting, published, finished,
}

-- The call that a leader has in the map.
abbrev pub registers : Pc → Option ℕ
registers (running c) = some c
registers (called c r) = some c
registers p = none

-- The call that a leader has not closed yet.
abbrev pub leads : Pc → Option ℕ
leads (running c) = some c
leads (called c r) = some c
leads (removed c r) = some c
leads p = none

abbrev pub awaits : Pc → Option ℕ
awaits (waiting c) = some c
awaits p = none

-- The call of a caller, whatever it does with it.
abbrev pub call_of : Pc → Option ℕ
call_of idle = none
call_of (running c) = some c
call_of (called c r) = some c
call_of (removed c r) = some c
call_of (waiting c) = some c
call_of (published c r o) = some c
call_of (finished c o) = some c

-- The call whose result a caller has returned with, and the result.
abbrev pub got : Pc → Option (ℕ × Outcome)
got (finished c (result e err)) = some (c, result e err)
got p = none

-- What a call holds for its leader: nothing before fn has returned.
abbrev pub so_far : FnResult → Outcome
so_far (returned e err) = result e err
so_far panics = result none none

abbrev pub keeps : Pc → Option (ℕ × Outcome)
keeps (running c) = some (c, result none none)
keeps (called c r) = some (c, so_far r)
keeps (removed c r) = some (c, so_far r)
keeps p = none

-- What every follower is to get, and what the leader itself returns with.
abbrev pub agreed : FnResult → Outcome
agreed (returned e err) = result e err
agreed panics = result none (some handler_panicked)

abbrev pub own : FnResult → Outcome
own (returned e err) = result e err
own panics = panicked

abbrev pub told : Pc → Option (ℕ × FnResult × Outcome)
told (published c r o) = some (c, r, o)
told p = none

pub registers-leads : (p : Pc) (c : ℕ) → registers p ≡ some c → leads p ≡ some c
registers-leads p c e = ground arith

pub leads-call_of : (p : Pc) (c : ℕ) → leads p ≡ some c → call_of p ≡ some c
leads-call_of p c e = ground arith

pub awaits-call_of : (p : Pc) (c : ℕ) → awaits p ≡ some c → call_of p ≡ some c
awaits-call_of p c e = ground arith

pub got-call_of : (p : Pc) (c : ℕ) (o : Outcome) → got p ≡ some (c, o) → call_of p ≡ some c
got-call_of p c o e = ground arith

pub keeps-call_of : (p : Pc) (c : ℕ) (o : Outcome) → keeps p ≡ some (c, o) → call_of p ≡ some c
keeps-call_of p c o e = ground arith

pub told-call_of :
    (p : Pc) (c : ℕ) (r : FnResult) (o : Outcome) → told p ≡ some (c, r, o) → call_of p ≡ some c
told-call_of p c r o e = ground arith

pub keeps-leads : (p : Pc) (c : ℕ) (o : Outcome) → keeps p ≡ some (c, o) → leads p ≡ some c
keeps-leads p c o e = ground arith
