-- ===== src/Coalesce.antt =====
-- coalesce.go: `InflightGroup`, whose callers with one key share one execution, as a step relation over
-- `n` callers. A critical section is one step, and so is all that a caller does between two of them. The
-- shard of a key is a function of the key, so the sharded maps are one map of keys here. A call is a
-- place in memory, which the leader and its followers share.
pub mod Views
pub mod Invariant
pub mod Enters
pub mod Steps
pub mod Safety
pub mod Progress
pub mod TwoCallers
mod Runs
use cache_predict.Common.{
  ℕ, ◌+◌, ◌<◌, ◌≡◌, Bool, true, false, Option, none, some, [], ◌==◌, if◌then◌else◌,
}
use cache_predict.Common.Words.{Bytes}
pub use cache_predict.Common.Family.{update}
use cache_predict.Common.Dict.{Dict, lookup, insert, remove, bytes_key}
use cache_predict.Entry.{ResponseEntry}

-- The errors that the sources return through a call; `failed` is any other error of the function.
pub data CallError : Type 0 where
  not_shareable streaming_response handler_panicked failed : CallError

pub record InflightCall : Type 0 where
  pub done : Bool
  pub entry : Option ResponseEntry
  pub err : Option CallError

abbrev pub new_call : InflightCall
new_call = record { done = false; entry = none; err = none }

pub record InflightGroup : Type 0 where
  pub calls : Dict Bytes ℕ
  pub memory : ℕ → InflightCall
  pub next : ℕ

abbrev pub new_group : InflightGroup
new_group = record { calls = []; memory = λ _. new_call; next = 0 }

-- What the function of the leader does.
pub data FnResult : Type 0 where
  returned : Option ResponseEntry → Option CallError → FnResult
  panics : FnResult

-- What a caller of DoContext gets: a result, the leader's panic, or its own context's error.
pub data Outcome : Type 0 where
  result : Option ResponseEntry → Option CallError → Outcome
  panicked gave_up : Outcome

-- Where a caller stands, with the call that it holds.
pub data Pc : Type 0 where
  idle : Pc
  running : (c : ℕ) → Pc  -- leader, in fn
  called : (c : ℕ) (r : FnResult) → Pc  -- leader, behind fn
  removed : (c : ℕ) (r : FnResult) → Pc  -- leader, behind the removal of its key
  waiting : (c : ℕ) → Pc  -- follower, in the select
  published : (c : ℕ) (r : FnResult) (o : Outcome) → Pc  -- leader, over
  finished : (c : ℕ) (o : Outcome) → Pc  -- follower, over

-- The first critical section: the call of the key, or a new one.
unfoldable pub join_call : Bytes → InflightGroup → Pc × InflightGroup
join_call key g = elim (lookup key g.calls) [
  | some c ↦ (waiting c, g)
  | none ↦ (
    running g.next,
    record {
      calls = insert key g.next g.calls;
      memory = update g.memory g.next new_call;
      next = g.next + 1;
    },
  )
]

-- `c.entry, c.err = fn()`, unless fn panics
unfoldable pub keep_result : ℕ → FnResult → InflightGroup → InflightGroup
keep_result c (returned e err) g = record g {
  memory = update g.memory c (record (g.memory c) { entry = e; err = err });
}
keep_result c panics g = g

-- The second critical section.
unfoldable pub unregister : Bytes → InflightGroup → InflightGroup
unregister key g = record g { calls = remove key g.calls }

abbrev pub final_err : FnResult → Option CallError → Option CallError
final_err (returned e err) old = old
final_err panics old = some handler_panicked

-- The error of a panic, and close(c.done)
unfoldable pub publish : ℕ → FnResult → InflightGroup → InflightGroup
publish c r g = record g {
  memory =
      update g.memory c (record (g.memory c) { done = true; err = final_err r (g.memory c).err });
}

-- What a call holds, as its caller returns it.
abbrev pub held : InflightCall → Outcome
held call = result call.entry call.err

abbrev pub leader_outcome : FnResult → InflightCall → Outcome
leader_outcome (returned e err) call = held call
leader_outcome panics call = panicked

pub record System : Type 0 where
  pub group : InflightGroup
  pub pc : ℕ → Pc

-- DoContext, by caller `i` with the key `keys i`.
pub data Step (keys : ℕ → Bytes) (n : ℕ) (s : System) : System → Type 0 where
  enters :
      (i : ℕ)
      → i < n
      → s.pc i ≡ idle
      → Step keys n s (record {
        group = (join_call (keys i) s.group).1;
        pc = update s.pc i (join_call (keys i) s.group).0;
      })
  returns :
      (i c : ℕ) (r : FnResult)
      → i < n
      → s.pc i ≡ running c
      → Step keys n s (record { group = keep_result c r s.group; pc = update s.pc i (called c r) })
  unregisters :
      (i c : ℕ) (r : FnResult)
      → i < n
      → s.pc i ≡ called c r
      → Step keys n s
          (record { group = unregister (keys i) s.group; pc = update s.pc i (removed c r) })
  publishes :
      (i c : ℕ) (r : FnResult)
      → i < n
      → s.pc i ≡ removed c r
      → Step keys n s (record {
        group = publish c r s.group;
        pc = update s.pc i (published c r (leader_outcome r ((publish c r s.group).memory c)));
      })
  receives :
      (i c : ℕ)
      → i < n
      → s.pc i ≡ waiting c
      → (s.group.memory c).done ≡ true
      → Step keys n s (record s { pc = update s.pc i (finished c (held (s.group.memory c))) })
  gives_up :
      (i c : ℕ)
      → i < n
      → s.pc i ≡ waiting c
      → Step keys n s (record s { pc = update s.pc i (finished c gave_up) })

abbrev pub start : System
start = record { group = new_group; pc = λ _. idle }

pub data Reach (keys : ℕ → Bytes) (n : ℕ) : System → Type 0 where
  here : Reach keys n start
  later : {s t : System} → Reach keys n s → Step keys n s t → Reach keys n t
