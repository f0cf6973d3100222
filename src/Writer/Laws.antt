-- ===== src/Writer/Laws.antt =====
-- What reaches the client, and what waits in the buffer, after any calls of a handler.
use cache_predict.Common.{
  ℕ, zero, suc, ◌≤◌, ◌≡◌, refl, Bool, true, false, List, [], ◌∷◌, ◌++◌, append_assoc, append-nil,
  arith, length, length-append,
}
use cache_predict.Common.Int.{ℤ, pos, negsuc}
use cache_predict.Common.Words.{Bytes}
use cache_predict.Writer.{
  Client, CapturingResponseWriter, new_writer, Call, edit_header, write_header_call, write_call,
  flush_call, hijack_call, step, run, write_header, write, flush, commit, drain, pass, send,
  send_header, flush_client, exceeds, hijack, announces_stream,
}

-- A buffer that the limit allows.
abbrev pub Within : ℤ → Bytes → Type 0
Within (pos zero) b = Unit
Within (pos (suc m)) b = length b ≤ suc m
Within (negsuc m) b = Unit

-- `w` is the client at the start, and `written` all that the handler has written.
pub record IsFaithful (w : Client) (max_bytes : ℤ) (written : Bytes) (c : CapturingResponseWriter)
    : Type 0 where
  pub conserved : c.w.sent ++ c.buf ≡ w.sent ++ written
  pub drained : c.streaming ≡ true → c.buf ≡ []
  pub untouched : c.streaming ≡ false → c.w ≡ w
  pub committed : c.header_written ≡ c.streaming
  pub limit : c.max_bytes ≡ max_bytes
  pub within : Within max_bytes c.buf

module _ (w : Client) (max_bytes : ℤ) (written : Bytes) (c : CapturingResponseWriter)
    (f : IsFaithful w max_bytes written c) where
  flush-IsFaithful : IsFaithful w max_bytes written (flush c)
  unfolding flush drain commit send send_header flush_client
  flush-IsFaithful =
      ground (arith, append-nil c.w.sent, append-nil (c.w.sent ++ c.buf), f.committed, f.limit)

  write-IsFaithful : (b : Bytes) → IsFaithful w max_bytes (written ++ b) (write b c)
  unfolding write drain commit send send_header pass exceeds
  write-IsFaithful b = ground (
    arith,
    append-nil c.w.sent,
    append-nil (c.w.sent ++ b),
    append-nil ((c.w.sent ++ c.buf) ++ b),
    append_assoc w.sent written b,
    append_assoc c.w.sent c.buf b,
    length-append c.buf b,
  )

  write_header-IsFaithful :
      (code : ℕ) → c.buf ≡ [] → IsFaithful w max_bytes written (write_header code c)
  unfolding write_header commit send_header
  write_header-IsFaithful code empty = ground arith

-- A handler that does not hijack and calls WriteHeader only before its first Write.
abbrev pub IsOrderly : Bool → List Call → Type 0
IsOrderly wrote [] = Unit
IsOrderly wrote (edit_header f ∷ calls) = IsOrderly wrote calls
IsOrderly wrote (write_header_call code ∷ calls) = (wrote ≡ false) × IsOrderly wrote calls
IsOrderly wrote (write_call b ∷ calls) = IsOrderly true calls
IsOrderly wrote (flush_call ∷ calls) = IsOrderly wrote calls
IsOrderly wrote (hijack_call ∷ calls) = ⊥

-- All that the calls write, in their order.
unfoldable pub written_by : List Call → Bytes
written_by [] = []
written_by (write_call b ∷ calls) = b ++ written_by calls
written_by (call ∷ calls) = written_by calls

abbrev Unwritten : Bool → CapturingResponseWriter → Type 0
Unwritten wrote c = wrote ≡ false → c.buf ≡ []

write_header-buf : (code : ℕ) (c : CapturingResponseWriter) → (write_header code c).buf ≡ c.buf
unfolding write_header commit
write_header-buf code c = ground arith

flush-buf : (c : CapturingResponseWriter) → (flush c).buf ≡ []
unfolding flush drain commit
flush-buf c = ground arith

module _ (w : Client) (max_bytes : ℤ) where
  run-IsFaithful_from :
      (calls : List Call) (wrote : Bool) (written : Bytes) (c : CapturingResponseWriter)
      → IsOrderly wrote calls
      → Unwritten wrote c
      → IsFaithful w max_bytes written c
      → IsFaithful w max_bytes (written ++ written_by calls) (run calls c)
  unfolding run step written_by
  run-IsFaithful_from [] wrote written c o u f = rw (append-nil written) f
  run-IsFaithful_from (edit_header change ∷ calls) wrote written c o u f =
      run-IsFaithful_from calls wrote written (step (edit_header change) c) o u (record {
        conserved = f.conserved;
        drained = f.drained;
        untouched = f.untouched;
        committed = f.committed;
        limit = f.limit;
        within = f.within;
      })
  run-IsFaithful_from (write_header_call code ∷ calls) wrote written c o u f =
      run-IsFaithful_from calls wrote written (write_header code c) o.1
        (λ e. rw write_header-buf (u e))
        (write_header-IsFaithful w max_bytes written c f code (u o.0))
  run-IsFaithful_from (write_call b ∷ calls) wrote written c o u f =
      rw (← append_assoc written b (written_by calls)) (
        run-IsFaithful_from calls true (written ++ b) (write b c) o (λ e. cc)
          (write-IsFaithful w max_bytes written c f b))
  run-IsFaithful_from (flush_call ∷ calls) wrote written c o u f =
      run-IsFaithful_from calls wrote written (flush c) o (λ e. flush-buf c)
        (flush-IsFaithful w max_bytes written c f)
  run-IsFaithful_from (hijack_call ∷ calls) wrote written c o u f = absurd o

  -- After any calls of a handler that does not hijack and calls WriteHeader only before its first
  -- Write: what the client got and what is buffered are together all that was written, in order; the
  -- buffer is empty in streaming mode and within the limit otherwise, and without streaming the
  -- client is untouched.
  pub run-IsFaithful :
      (calls : List Call)
      → IsOrderly false calls
      → IsFaithful w max_bytes (written_by calls) (run calls (new_writer w max_bytes))
  run-IsFaithful calls o =
      run-IsFaithful_from calls false [] (new_writer w max_bytes) o (λ e. refl) (start max_bytes)
    where
      start : (m : ℤ) → IsFaithful w m [] (new_writer w m)
      start (pos zero) = record {
        conserved = refl;
        drained = λ e. refl;
        untouched = λ e. refl;
        committed = refl;
        limit = refl;
        within = tt;
      }
      start (pos (suc m)) = record {
        conserved = refl;
        drained = λ e. refl;
        untouched = λ e. refl;
        committed = refl;
        limit = refl;
        within = omega arith;
      }
      start (negsuc m) = record {
        conserved = refl;
        drained = λ e. refl;
        untouched = λ e. refl;
        committed = refl;
        limit = refl;
        within = tt;
      }

-- After a Hijack that is refused, before anything was committed, a Write overtakes the bytes that
-- are buffered, which stay in the buffer, and a status that announces no stream is not sent.
pub hijack_refused :
    (c : CapturingResponseWriter) (b : Bytes) (code : ℕ)
    → c.header_written ≡ false
    → c.w.is_hijacker ≡ false
    → announces_stream c.header ≡ false
    → ((hijack c).0 ≡ false)
      × ((write b (hijack c).1).w.sent ≡ c.w.sent ++ b)
      × ((write b (hijack c).1).buf ≡ c.buf)
      × ((write_header code (hijack c).1).w ≡ c.w)
      × ((write_header code (hijack c).1).streaming ≡ true)
unfolding hijack write write_header commit pass send send_header
hijack_refused c b code h k a = ground (arith, h, k, a)
