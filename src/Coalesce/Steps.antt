-- ===== src/Coalesce/Steps.antt =====
-- The invariant behind every step.
use cache_predict.Common.{
  none, ℕ, ◌≡◌, inl, inr, refl, true, false, some, ◌==◌, ==_iff, Bool-cases, arith,
}
use cache_predict.Common.Words.{Bytes}
use cache_predict.Common.Dict.{lookup, lookup-remove, bytes_key}
use cache_predict.Coalesce.{
  InflightGroup, update, FnResult, returned, panics, Outcome, gave_up, Pc, running, called, removed,
  waiting, result, published, finished, keep_result, unregister, publish, held, leader_outcome,
  System, Step, enters, returns, unregisters, publishes, receives, gives_up, Reach, here, later,
}
use cache_predict.Coalesce.Views.{awaits, got, agreed, own, told, keeps-leads}
use cache_predict.Coalesce.Invariant.{
  Inv, Inv-start, moved_same_key, moved_allocated, moved_unique, moved_registered, moved_led,
}
use cache_predict.Coalesce.Enters.{Inv-enters}

module _ (keys : ℕ → Bytes) where
  module _ {g : InflightGroup} {pc : ℕ → Pc} (v : Inv keys g pc) (i c : ℕ) where
    -- A follower that stops waiting, with its call's result once that is there.
    stops :
        (o : Outcome)
        → pc i ≡ waiting c
        → ((b : ℕ) (x : Outcome)
            → got (finished c o) ≡ some (b, x)
            → ((g.memory b).done ≡ true) × (x ≡ held (g.memory b)))
        → Inv keys g (update pc i (finished c o))
    stops o p sound = record {
      registered =
          λ k b e. let (j, q, h) = v.registered k b e in (j, q, ground (arith, p, h, ==_iff i j));
      holding = λ j b e. ground (arith, p, v.holding j b, ==_iff i j);
      not_done = λ j b e. ground (arith, v.not_done j b, ==_iff i j);
      unique = moved_unique keys v i (finished c o) (λ b e. absurd (cc));
      led = moved_led keys v i (finished c o) refl (λ b e. ground (arith, p));
      same_key = moved_same_key keys v i (finished c o) (rw p refl);
      allocated = moved_allocated keys v i (finished c o) (rw p refl);
      settled = λ j b x e. elim (Bool-cases (i == j)) [
        | inl same ↦ sound b x (ground (arith, same, e))
        | inr apart ↦ v.settled j b x (ground (arith, apart, e))
      ];
      kept = λ j b x e. ground (arith, p, v.kept j b x, ==_iff i j);
      spread = λ j b x y e. ground (arith, p, v.spread j b x y, ==_iff i j);
    }

    Inv-receives :
        pc i ≡ waiting c
        → (g.memory c).done ≡ true
        → Inv keys g (update pc i (finished c (held (g.memory c))))
    Inv-receives p d = stops (held (g.memory c)) p (λ b x e. ground (arith, d, e))

    Inv-gives_up : pc i ≡ waiting c → Inv keys g (update pc i (finished c gave_up))
    Inv-gives_up p = stops gave_up p (λ b x e. absurd (cc))

    Inv-returns :
        (r : FnResult) → pc i ≡ running c → Inv keys (keep_result c r g) (update pc i (called c r))
    unfolding keep_result
    Inv-returns (returned x y) p = record {
      registered = moved_registered keys v i (called c (returned x y)) (rw p refl);
      holding = λ j b e. ground (arith, p, v.holding j b, v.holding i b, ==_iff i j);
      not_done = λ j b e. ground (arith, p, v.not_done j b, v.not_done i b, ==_iff i j, ==_iff c b);
      unique = moved_unique keys v i (called c (returned x y)) (λ b e. ground (arith, p));
      led = λ j b e.
          elim (moved_led keys v i (called c (returned x y)) refl (λ d f. ground (arith, p)) j b
            e) [ inl q ↦ inl (ground (arith, q, ==_iff c b)) | inr q ↦ inr q ];
      same_key = moved_same_key keys v i (called c (returned x y)) (rw p refl);
      allocated = moved_allocated keys v i (called c (returned x y)) (rw p refl);
      settled =
          λ j b o e. ground (arith, p, v.settled j b o, v.not_done i c, ==_iff i j, ==_iff c b);
      kept = λ j b o e. ground (
        arith,
        p,
        v.kept j b o,
        v.unique i j c,
        keeps-leads (pc j) b o,
        ==_iff i j,
        ==_iff c b,
        ==_iff c c,
      );
      spread =
          λ j b z o e. ground (arith, p, v.spread j b z o, v.not_done i c, ==_iff i j, ==_iff c b);
    }
    Inv-returns panics p = record {
      registered = moved_registered keys v i (called c panics) (rw p refl);
      holding = λ j b e. ground (arith, p, v.holding j b, v.holding i b, ==_iff i j);
      not_done = λ j b e. ground (arith, p, v.not_done j b, v.not_done i b, ==_iff i j, ==_iff c b);
      unique = moved_unique keys v i (called c panics) (λ b e. ground (arith, p));
      led = moved_led keys v i (called c panics) refl (λ b e. ground (arith, p));
      same_key = moved_same_key keys v i (called c panics) (rw p refl);
      allocated = moved_allocated keys v i (called c panics) (rw p refl);
      settled = λ j b o e. ground (arith, p, v.settled j b o, ==_iff i j);
      kept = λ j b o e. ground (arith, p, v.kept j b o, v.kept i b o, ==_iff i j);
      spread = λ j b x o e. ground (arith, p, v.spread j b x o, ==_iff i j);
    }

    Inv-unregisters :
        (r : FnResult)
        → pc i ≡ called c r
        → Inv keys (unregister (keys i) g) (update pc i (removed c r))
    unfolding unregister
    Inv-unregisters r p = record {
      registered = λ k b e.
          let other : bytes_key.same (keys i) k ≡ false =
            ground (arith, lookup-remove (keys i) k g.calls) in
          let e' : lookup k g.calls ≡ some b = ground (arith, lookup-remove (keys i) k g.calls) in
          let (j, q, h) = v.registered k b e' in
          (j, q, ground (arith, p, h, q, bytes_key.same_iff (keys i) k, ==_iff i j));
      holding = λ j b e. ground (
        arith,
        p,
        v.holding j b,
        v.holding i c,
        lookup-remove (keys i) (keys j) g.calls,
        v.unique i j c,
        bytes_key.same_iff (keys i) (keys j),
        ==_iff i j,
      );
      not_done = λ j b e. ground (arith, p, v.not_done j b, v.not_done i b, ==_iff i j);
      unique = moved_unique keys v i (removed c r) (λ b e. ground (arith, p));
      led = moved_led keys v i (removed c r) refl (λ b e. ground (arith, p));
      same_key = moved_same_key keys v i (removed c r) (rw p refl);
      allocated = moved_allocated keys v i (removed c r) (rw p refl);
      settled = λ j b o e. ground (arith, p, v.settled j b o, ==_iff i j);
      kept = λ j b o e. ground (arith, p, v.kept j b o, v.kept i b o, ==_iff i j);
      spread = λ j b x o e. ground (arith, p, v.spread j b x o, ==_iff i j);
    }

    settled_after :
        (r : FnResult)
        → pc i ≡ removed c r
        → (j b : ℕ) (o : Outcome)
        → got (update pc i (published c r (leader_outcome r ((publish c r g).memory c))) j)
          ≡ some (b, o)
        → (((publish c r g).memory b).done ≡ true) × (o ≡ held ((publish c r g).memory b))
    unfolding publish
    settled_after (returned x y) p j b o e =
        ground (arith, p, v.settled j b o, v.not_done i c, ==_iff i j, ==_iff c b, ==_iff c c)
    settled_after panics p j b o e =
        ground (arith, p, v.settled j b o, v.not_done i c, ==_iff i j, ==_iff c b, ==_iff c c)

    spread_after :
        (r : FnResult)
        → pc i ≡ removed c r
        → (j b : ℕ) (z : FnResult) (o : Outcome)
        → told (update pc i (published c r (leader_outcome r ((publish c r g).memory c))) j)
          ≡ some (b, z, o)
        → (((publish c r g).memory b).done ≡ true)
          × (held ((publish c r g).memory b) ≡ agreed z)
          × (o ≡ own z)
    unfolding publish
    spread_after (returned x y) p j b z o e =
        let k : held (g.memory c) ≡ result x y = v.kept i c (result x y) (ground (arith, p)) in
        let d : (g.memory c).done ≡ false = v.not_done i c (ground (arith, p)) in
        elim (Bool-cases (i == j)) [
          | inl same ↦ ground (arith, k, same, e, ==_iff c b, ==_iff c c)
          | inr apart ↦
              let e' : told (pc j) ≡ some (b, z, o) = ground (arith, apart, e) in
              ground (arith, d, v.spread j b z o, ==_iff c b)
        ]
    spread_after panics p j b z o e =
        let k : held (g.memory c) ≡ result none none =
          v.kept i c (result none none) (ground (arith, p)) in
        let d : (g.memory c).done ≡ false = v.not_done i c (ground (arith, p)) in
        elim (Bool-cases (i == j)) [
          | inl same ↦ ground (arith, k, same, e, ==_iff c b, ==_iff c c)
          | inr apart ↦
              let e' : told (pc j) ≡ some (b, z, o) = ground (arith, apart, e) in
              ground (arith, d, v.spread j b z o, ==_iff c b)
        ]

    Inv-publishes :
        (r : FnResult)
        → pc i ≡ removed c r
        → Inv keys
            (publish c r g)
            (update pc i (published c r (leader_outcome r ((publish c r g).memory c))))
    unfolding publish
    Inv-publishes r p =
        let over = published c r (leader_outcome r ((publish c r g).memory c)) in
        record {
          registered = moved_registered keys v i over (rw p refl);
          holding = λ j b e. ground (arith, p, v.holding j b, ==_iff i j);
          not_done =
              λ j b e. ground (arith, p, v.not_done j b, v.unique i j c, ==_iff i j, ==_iff c b);
          unique = moved_unique keys v i over (λ b e. absurd (cc));
          led = λ j b e.
              let e' : awaits (pc j) ≡ some b = ground (arith, p, ==_iff i j) in
              elim (v.led j b e') [
                | inl q ↦ inl (ground (arith, q, ==_iff c b))
                | inr (l, h) ↦ elim (Bool-cases (i == l)) [
                  | inl q ↦ inl (ground (arith, p, h, ==_iff i l, ==_iff c b))
                  | inr q ↦ inr (l, ground (arith, p, h, q))
                ]
              ];
          same_key = moved_same_key keys v i over (rw p refl);
          allocated = moved_allocated keys v i over (rw p refl);
          settled = settled_after r p;
          kept = λ j b o e. ground (
            arith,
            p,
            v.kept j b o,
            v.unique i j c,
            keeps-leads (pc j) b o,
            ==_iff i j,
            ==_iff c b,
          );
          spread = spread_after r p;
        }

  Step-Inv :
      {n : ℕ} {s t : System} → Step keys n s t → Inv keys s.group s.pc → Inv keys t.group t.pc
  Step-Inv (enters i lt p) v = Inv-enters keys v i p
  Step-Inv (returns i c r lt p) v = Inv-returns v i c r p
  Step-Inv (unregisters i c r lt p) v = Inv-unregisters v i c r p
  Step-Inv (publishes i c r lt p) v = Inv-publishes v i c r p
  Step-Inv (receives i c lt p d) v = Inv-receives v i c p d
  Step-Inv (gives_up i c lt p) v = Inv-gives_up v i c p

  pub Reach-Inv : {n : ℕ} {s : System} → Reach keys n s → Inv keys s.group s.pc
  Reach-Inv here = Inv-start keys
  Reach-Inv (later r st) = Step-Inv st (Reach-Inv r)
