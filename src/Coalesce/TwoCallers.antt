-- ===== src/Coalesce/TwoCallers.antt =====
-- A run of two callers with one key, the second of which waits for the first.
use cache_predict.Common.{ℕ, refl, [], arith}
use cache_predict.Common.Words.{Bytes}
use cache_predict.Common.Dict.{lookup, insert, bytes_key}
use cache_predict.Coalesce.{
  update, FnResult, published, finished, System, Reach, here, later, start, join_call, enters,
  returns, unregisters, publishes, receives, unregister, keep_result, publish, held, leader_outcome,
  called, removed,
}

abbrev pub one_key : ℕ → Bytes
one_key i = []

abbrev entered : ℕ → System → System
entered i s = record {
  group = (join_call (one_key i) s.group).1;
  pc = update s.pc i (join_call (one_key i) s.group).0;
}

abbrev pub both_in : System
both_in = entered 1 (entered 0 start)

pub to_both : Reach one_key 2 both_in
unfolding join_call
to_both = later (later here (enters 0 (omega arith) refl)) (enters 1 (omega arith) refl)

-- The leader's function does `r`, and its follower receives.
abbrev pub ended : FnResult → System
ended r =
    let s = both_in in
    let g1 = keep_result 0 r s.group in
    let g2 = unregister [] g1 in
    let g3 = publish 0 r g2 in
    record {
      group = g3;
      pc =
          update
            (update (update (update s.pc 0 (called 0 r)) 0 (removed 0 r)) 0
              (published 0 r (leader_outcome r (g3.memory 0))))
            1 (finished 0 (held (g3.memory 0)));
    }

pub to_ended : (r : FnResult) → Reach one_key 2 (ended r)
unfolding join_call keep_result unregister publish lookup insert
to_ended r =
    later
      (later
        (later (later to_both (returns 0 0 r (omega arith) refl))
          (unregisters 0 0 r (omega arith) refl))
        (publishes 0 0 r (omega arith) refl))
      (receives 1 0 (omega arith) refl refl)
