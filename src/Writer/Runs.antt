-- ===== src/Writer/Runs.antt =====
-- Runs of the response writer, and its theorems at concrete inputs.
use cache_predict.Common.{◌≡◌, refl, none, [], ◌∷◌, true, false}
use cache_predict.Common.Int.{pos}
use cache_predict.Common.Dict.{lookup, bytes_key}
use cache_predict.Common.Text.{codes, has_prefix}
use cache_predict.Http
use cache_predict.Writer.{
  Client, CapturingResponseWriter, new_writer, write_header_call, write_call, flush_call, run, step,
  write, write_header, hijack, exceeds, commit, drain, pass, send, send_header, add_all,
  announces_stream,
}
use cache_predict.Writer.Laws.{IsFaithful, written_by, run-IsFaithful, hijack_refused}

abbrev fresh : Client
fresh = record {
  header = [];
  status = none;
  sent = [];
  flushes = 0;
  is_flusher = true;
  is_hijacker = false;
}

-- Past the limit of 3 bytes what was buffered goes first, then the write that passed it.
overflows :
    (run (write_call (codes "ab") ∷ write_call (codes "cd") ∷ []) (new_writer fresh (pos 3))).w.sent
    ≡ codes "abcd"
unfolding run step write exceeds drain commit pass send send_header add_all
overflows = refl

run-IsFaithful_example : IsFaithful fresh (pos 3) (codes "abcd") (
    run
      (write_header_call 201 ∷ write_call (codes "ab") ∷ write_call (codes "cd") ∷ flush_call ∷ [])
      (new_writer fresh (pos 3)))
unfolding written_by
run-IsFaithful_example =
    run-IsFaithful fresh (pos 3)
      (write_header_call 201 ∷ write_call (codes "ab") ∷ write_call (codes "cd") ∷ flush_call ∷ [])
      (refl, tt)

abbrev buffered : CapturingResponseWriter
buffered = record (new_writer fresh (pos 9)) { buf = codes "a" }

no_stream : announces_stream [] ≡ false
unfolding announces_stream has_prefix Http.get lookup
no_stream = refl

hijack_refused_example :
    ((hijack buffered).0 ≡ false)
    × ((write (codes "b") (hijack buffered).1).w.sent ≡ codes "b")
    × ((write (codes "b") (hijack buffered).1).buf ≡ codes "a")
    × ((write_header 500 (hijack buffered).1).w ≡ fresh)
    × ((write_header 500 (hijack buffered).1).streaming ≡ true)
hijack_refused_example = hijack_refused buffered (codes "b") 500 refl refl no_stream
