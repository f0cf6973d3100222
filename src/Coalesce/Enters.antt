-- ===== src/Coalesce/Enters.antt =====
-- The invariant behind a caller's entry, as a leader or as a follower.
use cache_predict.Common.{
  ℕ, ◌+◌, ◌≡◌, inl, inr, refl, none, some, ◌==◌, ==_iff, Bool-cases, Option-cases, arith,
}
use cache_predict.Common.Words.{Bytes}
use cache_predict.Common.Dict.{lookup, insert, lookup-insert, bytes_key}
use cache_predict.Coalesce.{InflightGroup, update, Pc, idle, running, waiting, join_call, new_call}
use cache_predict.Coalesce.Views.{
  awaits, registers-leads, leads-call_of, awaits-call_of, got-call_of, keeps-call_of, told-call_of,
}
use cache_predict.Coalesce.Invariant.{Inv}

-- The group with a new call for the key.
abbrev opened : Bytes → InflightGroup → InflightGroup
opened key g = record {
  calls = insert key g.next g.calls;
  memory = update g.memory g.next new_call;
  next = g.next + 1;
}

join_call-new :
    (key : Bytes) (g : InflightGroup)
    → lookup key g.calls ≡ none
    → join_call key g ≡ (running g.next, opened key g)
unfolding join_call
join_call-new key g e = rw (join_call, e) refl

join_call-old :
    (key : Bytes) (g : InflightGroup) (c : ℕ)
    → lookup key g.calls ≡ some c
    → join_call key g ≡ (waiting c, g)
unfolding join_call
join_call-old key g c e = rw (join_call, e) refl

module _ (keys : ℕ → Bytes) where
  pub Inv-enters :
      {g : InflightGroup} {pc : ℕ → Pc}
      → Inv keys g pc
      → (i : ℕ) → pc i ≡ idle
      → Inv keys (join_call (keys i) g).1 (update pc i (join_call (keys i) g).0)
  Inv-enters {g} {pc} v i p = elim (Option-cases (lookup (keys i) g.calls)) [
    | inl e ↦ rw (join_call-new (keys i) g e) (leading e)
    | inr (c, e) ↦ rw (join_call-old (keys i) g c e) (following c e)
  ]
    where
      leading :
          lookup (keys i) g.calls ≡ none
          → Inv keys (opened (keys i) g) (update pc i (running g.next))
      leading e = record {
        registered = λ k b f. elim (Bool-cases (bytes_key.same (keys i) k)) [
          | inl q ↦ (
            i,
            (bytes_key.same_iff (keys i) k).0 q,
            ground (arith, lookup-insert (keys i) k g.next g.calls, ==_iff i i),
          )
          | inr q ↦
              let f' : lookup k g.calls ≡ some b =
                ground (arith, lookup-insert (keys i) k g.next g.calls) in
              let (j, s, h) = v.registered k b f' in (j, s, ground (arith, p, h, ==_iff i j))
        ];
        holding = λ j b f. ground (
          arith,
          p,
          v.holding j b,
          e,
          lookup-insert (keys i) (keys j) g.next g.calls,
          bytes_key.same_iff (keys i) (keys j),
          ==_iff i j,
        );
        not_done = λ j b f. ground (arith, v.not_done j b, ==_iff i j);
        unique = λ j k b f h. ground (
          arith,
          v.unique j k b,
          v.allocated j b,
          v.allocated k b,
          leads-call_of (pc j) b,
          leads-call_of (pc k) b,
          ==_iff i j,
          ==_iff i k,
        );
        led = λ j b f.
            let f' : awaits (pc j) ≡ some b = ground (arith, p, ==_iff i j) in
            let below = v.allocated j b (awaits-call_of (pc j) b f') in
            elim (v.led j b f') [
              | inl q ↦ inl (ground (arith, q, below, ==_iff g.next b))
              | inr (l, h) ↦ inr (l, ground (arith, p, h, ==_iff i l))
            ];
        same_key = λ j k b f h.
            ground
              (arith, v.same_key j k b, v.allocated j b, v.allocated k b, ==_iff i j, ==_iff i k);
        allocated = λ j b f. ground (arith, v.allocated j b, ==_iff i j);
        settled = λ j b o f. ground (
          arith,
          v.settled j b o,
          v.allocated j b,
          got-call_of (pc j) b o,
          ==_iff i j,
          ==_iff g.next b,
        );
        kept = λ j b o f. ground (
          arith,
          v.kept j b o,
          v.allocated j b,
          keeps-call_of (pc j) b o,
          ==_iff i j,
          ==_iff g.next b,
          ==_iff g.next g.next,
        );
        spread = λ j b x o f. ground (
          arith,
          v.spread j b x o,
          v.allocated j b,
          told-call_of (pc j) b x o,
          ==_iff i j,
          ==_iff g.next b,
        );
      }

      following : (c : ℕ) → lookup (keys i) g.calls ≡ some c → Inv keys g (update pc i (waiting c))
      following c e =
          let (m, q, held_by) = v.registered (keys i) c e in
          let leader = registers-leads (pc m) c held_by in
          let on_call = leads-call_of (pc m) c leader in
          record {
            registered = λ k b f.
                let (j, s, h) = v.registered k b f in (j, s, ground (arith, p, h, ==_iff i j));
            holding = λ j b f. ground (arith, p, v.holding j b, ==_iff i j);
            not_done = λ j b f. ground (arith, v.not_done j b, ==_iff i j);
            unique = λ j k b f h. ground (arith, v.unique j k b, ==_iff i j, ==_iff i k);
            led = λ j b f. elim (Bool-cases (i == j)) [
              | inl same ↦ inr (m, ground (arith, p, leader, same, f, ==_iff i m))
              | inr apart ↦ elim (v.led j b (ground (arith, apart, f))) [
                | inl d ↦ inl d
                | inr (l, h) ↦ inr (l, ground (arith, p, h, ==_iff i l))
              ]
            ];
            same_key = λ j k b f h. ground (
              arith,
              p,
              q,
              on_call,
              v.same_key j k b,
              v.same_key m j c,
              v.same_key m k c,
              ==_iff i j,
              ==_iff i k,
            );
            allocated =
                λ j b f. ground (arith, on_call, v.allocated j b, v.allocated m c, ==_iff i j);
            settled = λ j b o f. ground (arith, p, v.settled j b o, ==_iff i j);
            kept = λ j b o f. ground (arith, p, v.kept j b o, ==_iff i j);
            spread = λ j b x o f. ground (arith, p, v.spread j b x o, ==_iff i j);
          }
