-- ===== src/Writer/Commits.antt =====
-- Headers that are committed, for any calls of a handler.
use cache_predict.Common.{◌≡◌, refl, true, false, ◌∷◌, [], List, arith}
use cache_predict.Common.Int.{ℤ}
use cache_predict.Writer.{
  CapturingResponseWriter, Client, new_writer, Call, edit_header, write_header_call, write_call,
  flush_call, hijack_call, step, run, write_header, write, flush, commit, drain, pass, hijack,
}

-- Nothing is committed, and the client has got nothing, until the writer streams.
pub record IsHeld (w : Client) (c : CapturingResponseWriter) : Type 0 where
  pub commits : c.streaming ≡ false → c.header_written ≡ false
  pub untouched : c.streaming ≡ false → c.w ≡ w
  pub overflows : c.overflow ≡ true → c.streaming ≡ true

step-IsHeld :
    (w : Client) (a : Call) (c : CapturingResponseWriter) → IsHeld w c → IsHeld w (step a c)
unfolding step write_header write flush commit drain pass hijack
step-IsHeld w (edit_header f) c h = record {
  commits = h.commits;
  untouched = h.untouched;
  overflows = h.overflows;
}
step-IsHeld w (write_header_call code) c h = ground (arith, h.commits, h.untouched, h.overflows)
step-IsHeld w (write_call b) c h = ground (arith, h.commits, h.untouched, h.overflows)
step-IsHeld w flush_call c h = ground (arith, h.commits, h.untouched, h.overflows)
step-IsHeld w hijack_call c h = ground (arith, h.commits, h.untouched, h.overflows)

run-IsHeld_from :
    (w : Client) (calls : List Call) (c : CapturingResponseWriter)
    → IsHeld w c
    → IsHeld w (run calls c)
unfolding run
run-IsHeld_from w [] c h = h
run-IsHeld_from w (a ∷ calls) c h = run-IsHeld_from w calls (step a c) (step-IsHeld w a c h)

pub run-IsHeld :
    (w : Client) (max_bytes : ℤ) (calls : List Call) → IsHeld w (run calls (new_writer w max_bytes))
run-IsHeld w max_bytes calls =
    run-IsHeld_from w calls (new_writer w max_bytes)
      (record { commits = λ e. refl; untouched = λ e. refl; overflows = λ e. absurd (cc) })
