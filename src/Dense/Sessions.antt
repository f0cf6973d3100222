-- ===== src/Dense/Sessions.antt =====
-- The histories of sessions in one shard, `sessionShard`.

pub mod Bounds
use cache_predict.Common.{
  ℕ, ◌+◌, ◌-◌, ◌%◌, Bool, true, false, ◌&&◌, Option, none, some, List, [], ◌∷◌, ◌++◌, leb, ltb,
  if◌then◌else◌, length, drop, get_elem?,
}
use cache_predict.Common.Words.{Bytes}
use cache_predict.Common.Dict.{Dict, lookup, insert, remove, bytes_key}

pub record DenseStep : Type 0 where
  pub id : ℕ
  pub concrete : Bytes
  pub pattern : Bytes
  pub path : Bytes
  pub query : Bytes

abbrev pub History : Type 0
History = List DenseStep

abbrev pub Sessions : Type 0
Sessions = Dict Bytes History

-- hist[len(hist)-1], where there is one
abbrev pub last_step : History → Option DenseStep
last_step [] = none
last_step (s ∷ []) = some s
last_step (s ∷ t ∷ hist) = last_step (t ∷ hist)

-- sh.sessions[sessionID]: a missing key reads as the empty history
unfoldable pub history_of : Bytes → Sessions → History
history_of session sessions = elim (lookup session sessions) [ none ↦ [] | some hist ↦ hist ]

unfoldable pub keep_last : ℕ → History → History
keep_last max_history hist =
    if ltb max_history (length hist) then drop (length hist - max_history) hist else hist

-- The first key of `range sh.sessions`, of which Go leaves the order open: `victim` chooses it.
unfoldable pub evict : ℕ → Sessions → Sessions
evict victim sessions = elim (get_elem? sessions (victim % length sessions)) [
  | none ↦ sessions
  | some entry ↦ remove entry.0 sessions
]

abbrev pub is_new : History → Bool
is_new [] = true
is_new (s ∷ hist) = false

abbrev pub max_sessions : ℕ
max_sessions = 500

-- What Record does to the shard of the session.
unfoldable pub track : ℕ → ℕ → Bytes → DenseStep → Sessions → Sessions
track victim max_history session step sessions =
    let hist = history_of session sessions in
    let room =
      if is_new hist && leb max_sessions (length sessions)
      then evict victim sessions
      else sessions in
    insert session (keep_last max_history (hist ++ step ∷ [])) room
