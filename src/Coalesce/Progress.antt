-- ===== src/Coalesce/Progress.antt =====
-- How many steps the callers have left, and who can go on.
use cache_predict.Common.{
  ℕ, zero, suc, ◌<◌, ◌≤◌, ◌≡◌, inl, inr, refl, Bool, true, false, some, arith, ◌==◌, ==_iff,
  Bool-cases, ◌⊎◌,
}
use cache_predict.Common.Words.{Bytes}
use cache_predict.Common.Dict.{bytes_key}
use cache_predict.Common.Family.{update, total, total-update, all_or_one}
use cache_predict.Coalesce.{
  Pc, idle, running, called, removed, waiting, published, finished, System, Step, enters, returns,
  unregisters, publishes, receives, gives_up, Reach, here, later, FnResult, join_call,
  InflightGroup,
}
use cache_predict.Coalesce.Views.{leads}
use cache_predict.Coalesce.Steps.{Reach-Inv}

-- How many steps a caller has left at most.
abbrev pub left : Pc → ℕ
left idle = 4
left (running c) = 3
left (called c r) = 2
left (removed c r) = 1
left (waiting c) = 1
left (published c r o) = 0
left (finished c o) = 0

abbrev pub all_left : ℕ → (ℕ → Pc) → ℕ
all_left = total left

left-join_call : (key : Bytes) (g : InflightGroup) → left (join_call key g).0 < 4
unfolding join_call
left-join_call key g = ground arith

abbrev pub has_ended : Pc → Bool
has_ended (published c r o) = true
has_ended (finished c o) = true
has_ended p = false

abbrev leading : Pc → Bool
leading (running c) = true
leading (called c r) = true
leading (removed c r) = true
leading p = false

leads-leading : (p : Pc) (c : ℕ) → leads p ≡ some c → leading p ≡ true
leads-leading p c e = ground arith

module _ (keys : ℕ → Bytes) (n : ℕ) where
  moves_less :
      (i : ℕ) (p : Pc) (pc : ℕ → Pc)
      → i < n
      → left p < left (pc i)
      → all_left n (update pc i p) < all_left n pc
  moves_less i p pc lt less = omega (arith, total-update left n i p pc lt)

  Step-left : {s t : System} → Step keys n s t → all_left n t.pc < all_left n s.pc
  Step-left {s} (enters i lt p) = moves_less i _ s.pc lt (rw p (left-join_call (keys i) s.group))
  Step-left {s} (returns i c r lt p) = moves_less i (called c r) s.pc lt (rw p (omega arith))
  Step-left {s} (unregisters i c r lt p) = moves_less i (removed c r) s.pc lt (rw p (omega arith))
  Step-left {s} (publishes i c r lt p) = moves_less i _ s.pc lt (rw p (omega arith))
  Step-left {s} (receives i c lt p d) = moves_less i _ s.pc lt (rw p (omega arith))
  Step-left {s} (gives_up i c lt p) = moves_less i _ s.pc lt (rw p (omega arith))

  Entered : (ℕ → Pc) → Type 0
  Entered pc = (i : ℕ) → (pc i ≡ idle) ⊎ (i < n)

  update-Entered : (pc : ℕ → Pc) (j : ℕ) (p : Pc) → j < n → Entered pc → Entered (update pc j p)
  unfolding Entered
  update-Entered pc j p lt old i = elim (Bool-cases (j == i)) [
    | inl same ↦ inr (omega (arith, lt, (==_iff j i).0 same))
    | inr apart ↦ rw (apart) (old i)
  ]

  Reach-Entered : {s : System} → Reach keys n s → Entered s.pc
  unfolding Entered
  Reach-Entered here = λ i. inl refl
  Reach-Entered (later {s = s} r (enters j lt p)) = update-Entered s.pc j _ lt (Reach-Entered r)
  Reach-Entered (later {s = s} r (returns j c x lt p)) =
      update-Entered s.pc j _ lt (Reach-Entered r)
  Reach-Entered (later {s = s} r (unregisters j c x lt p)) =
      update-Entered s.pc j _ lt (Reach-Entered r)
  Reach-Entered (later {s = s} r (publishes j c x lt p)) =
      update-Entered s.pc j _ lt (Reach-Entered r)
  Reach-Entered (later {s = s} r (receives j c lt p d)) =
      update-Entered s.pc j _ lt (Reach-Entered r)
  Reach-Entered (later {s = s} r (gives_up j c lt p)) = update-Entered s.pc j _ lt (Reach-Entered r)

  leader_in_range : (pc : ℕ → Pc) (j c : ℕ) → Entered pc → leads (pc j) ≡ some c → j < n
  unfolding Entered
  leader_in_range pc j c known e = elim (known j) [ inl idles ↦ absurd (cc) | inr lt ↦ lt ]

-- `answer i` is what the function of caller `i` does, where it runs.
module _ (keys : ℕ → Bytes) (n : ℕ) (answer : ℕ → FnResult) where
  -- A step of callers that do not give up, whose functions do what they are given to do.
  pub Orderly : {s t : System} → Step keys n s t → Type 0
  Orderly (gives_up i c lt p) = ⊥
  Orderly (returns i c r lt p) = r ≡ answer i
  Orderly (enters i lt p) = Unit
  Orderly (unregisters i c r lt p) = Unit
  Orderly (publishes i c r lt p) = Unit
  Orderly (receives i c lt p d) = Unit

  -- A run in which nobody gives up.
  pub data Run : System → System → Type 0 where
    stay : {s : System} → Run s s
    go : {s t u : System} (st : Step keys n s t) → Orderly st → Run t u → Run s u

  OneStep : System → Type 0
  OneStep s = (t : System) × (st : Step keys n s t) × (Orderly st)

  leader_goes_on : (s : System) (j : ℕ) (p : Pc) → j < n → s.pc j ≡ p → leading p ≡ true → OneStep s
  unfolding OneStep Orderly
  leader_goes_on s j (running c) lt at e = (_, returns j c (answer j) lt at, refl)
  leader_goes_on s j (called c r) lt at e = (_, unregisters j c r lt at, tt)
  leader_goes_on s j (removed c r) lt at e = (_, publishes j c r lt at, tt)
  leader_goes_on s j idle lt at e = absurd (cc)
  leader_goes_on s j (waiting c) lt at e = absurd (cc)
  leader_goes_on s j (published c r o) lt at e = absurd (cc)
  leader_goes_on s j (finished c o) lt at e = absurd (cc)

  goes_on :
      {s : System}
      → Reach keys n s
      → (i : ℕ) (p : Pc) → i < n
      → s.pc i ≡ p
      → has_ended p ≡ false
      → OneStep s
  unfolding OneStep Orderly
  goes_on r i idle lt at e = (_, enters i lt at, tt)
  goes_on {s} r i (running c) lt at e = leader_goes_on s i (running c) lt at refl
  goes_on {s} r i (called c x) lt at e = leader_goes_on s i (called c x) lt at refl
  goes_on {s} r i (removed c x) lt at e = leader_goes_on s i (removed c x) lt at refl
  goes_on r i (published c x o) lt at e = absurd (cc)
  goes_on r i (finished c o) lt at e = absurd (cc)
  goes_on {s} r i (waiting c) lt at e = elim ((Reach-Inv keys r).led i c (rw at refl)) [
    | inl d ↦ (_, receives i c lt at d, tt)
    | inr (j, h) ↦
        leader_goes_on s j (s.pc j) (leader_in_range keys n s.pc j c (Reach-Entered keys n r) h)
          refl (leads-leading (s.pc j) c h)
  ]

  finishes_within :
      (m : ℕ) {s : System}
      → Reach keys n s
      → all_left n s.pc ≤ m
      → (t : System) × Run s t × ((i : ℕ) → i < n → has_ended (t.pc i) ≡ true)
  unfolding OneStep Orderly
  finishes_within zero {s} r le = elim (all_or_one has_ended n s.pc) [
    | inl all ↦ (s, stay, all)
    | inr (i, lt, open_at) ↦
        let (t, st, patience) = goes_on r i (s.pc i) lt refl open_at in
        absurd (omega (arith, Step-left keys n st, le))
  ]
  finishes_within (suc m) {s} r le = elim (all_or_one has_ended n s.pc) [
    | inl all ↦ (s, stay, all)
    | inr (i, lt, open_at) ↦
        let (t, st, patience) = goes_on r i (s.pc i) lt refl open_at in
        let (u, run, over) =
          finishes_within m (later r st) (omega (arith, Step-left keys n st, le)) in
        (u, go st patience run, over)
  ]

  -- From every reachable state, whatever the functions answer, there is a run in which no follower gives
  -- up, each function that returns in it answers as given, and behind which every
  -- caller is over.
  pub everyone_returns :
      {s : System}
      → Reach keys n s
      → (t : System) × Run s t × ((i : ℕ) → i < n → has_ended (t.pc i) ≡ true)
  everyone_returns {s} r = finishes_within (all_left n s.pc) r (omega arith)
