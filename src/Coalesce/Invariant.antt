-- ===== src/Coalesce/Invariant.antt =====
-- Who holds which call: what is true at the start and kept by every step.
use cache_predict.Common.{ℕ, ◌<◌, ◌≡◌, ◌⊎◌, inl, inr, true, false, none, some, ==_iff, arith}
use cache_predict.Common.Words.{Bytes}
use cache_predict.Common.Dict.{lookup, bytes_key}
use cache_predict.Coalesce.{InflightGroup, update, FnResult, Outcome, Pc, held, start}
use cache_predict.Coalesce.Views.{registers, leads, awaits, call_of, got, keeps, agreed, own, told}

module _ (keys : ℕ → Bytes) where
  pub record Inv (g : InflightGroup) (pc : ℕ → Pc) : Type 0 where
    pub registered :
        (k : Bytes) (c : ℕ)
        → lookup k g.calls ≡ some c
        → (i : ℕ) × (keys i ≡ k) × (registers (pc i) ≡ some c)
    pub holding : (i c : ℕ) → registers (pc i) ≡ some c → lookup (keys i) g.calls ≡ some c
    pub not_done : (i c : ℕ) → leads (pc i) ≡ some c → (g.memory c).done ≡ false
    pub unique : (i j c : ℕ) → leads (pc i) ≡ some c → leads (pc j) ≡ some c → i ≡ j
    pub led :
        (i c : ℕ)
        → awaits (pc i) ≡ some c
        → ((g.memory c).done ≡ true) ⊎ ((j : ℕ) × (leads (pc j) ≡ some c))
    pub same_key : (i j c : ℕ) → call_of (pc i) ≡ some c → call_of (pc j) ≡ some c → keys i ≡ keys j
    pub allocated : (i c : ℕ) → call_of (pc i) ≡ some c → c < g.next
    pub settled :
        (i c : ℕ) (o : Outcome)
        → got (pc i) ≡ some (c, o)
        → ((g.memory c).done ≡ true) × (o ≡ held (g.memory c))
    pub kept : (i c : ℕ) (o : Outcome) → keeps (pc i) ≡ some (c, o) → held (g.memory c) ≡ o
    pub spread :
        (i c : ℕ) (r : FnResult) (o : Outcome)
        → told (pc i) ≡ some (c, r, o)
        → ((g.memory c).done ≡ true) × (held (g.memory c) ≡ agreed r) × (o ≡ own r)

  pub Inv-start : Inv start.group start.pc
  unfolding lookup
  Inv-start = record {
    registered = λ k c e. absurd (cc);
    holding = λ i c e. absurd (cc);
    not_done = λ i c e. absurd (cc);
    unique = λ i j c e f. absurd (cc);
    led = λ i c e. absurd (cc);
    same_key = λ i j c e f. absurd (cc);
    allocated = λ i c e. absurd (cc);
    settled = λ i c o e. absurd (cc);
    kept = λ i c o e. absurd (cc);
    spread = λ i c r o e. absurd (cc);
  }

  -- A caller that goes on with its own call, or is over with it.
  module _ {g : InflightGroup} {pc : ℕ → Pc} (v : Inv g pc) (i : ℕ) (q : Pc) where
    pub moved_same_key :
        call_of q ≡ call_of (pc i)
        → (j k b : ℕ) → call_of (update pc i q j) ≡ some b
        → call_of (update pc i q k) ≡ some b
        → keys j ≡ keys k
    moved_same_key p j k b e f =
        ground
          (arith, p, v.same_key j k b, v.same_key i k b, v.same_key j i b, ==_iff i j, ==_iff i k)

    pub moved_allocated :
        call_of q ≡ call_of (pc i) → (j b : ℕ) → call_of (update pc i q j) ≡ some b → b < g.next
    moved_allocated p j b e = ground (arith, p, v.allocated j b, v.allocated i b, ==_iff i j)

    pub moved_unique :
        ((b : ℕ) → leads q ≡ some b → leads (pc i) ≡ some b)
        → (j k b : ℕ) → leads (update pc i q j) ≡ some b
        → leads (update pc i q k) ≡ some b
        → j ≡ k
    moved_unique p j k b e f =
        ground (arith, p b, v.unique j k b, v.unique i k b, v.unique j i b, ==_iff i j, ==_iff i k)

    pub moved_registered :
        registers q ≡ registers (pc i)
        → (k : Bytes) (b : ℕ) → lookup k g.calls ≡ some b
        → (j : ℕ) × (keys j ≡ k) × (registers (update pc i q j) ≡ some b)
    moved_registered p k b e =
        let (j, s, h) = v.registered k b e in (j, s, ground (arith, p, h, ==_iff i j))

    pub moved_led :
        awaits q ≡ none
        → ((b : ℕ) → leads (pc i) ≡ some b → leads q ≡ some b)
        → (j b : ℕ) → awaits (update pc i q j) ≡ some b
        → ((g.memory b).done ≡ true) ⊎ ((l : ℕ) × (leads (update pc i q l) ≡ some b))
    moved_led p o j b e =
        let e' : awaits (pc j) ≡ some b = ground (arith, p, ==_iff i j) in
        elim (v.led j b e') [
          | inl d ↦ inl d
          | inr (l, h) ↦ inr (l, ground (arith, o b, h, ==_iff i l))
        ]
