-- ===== src/Writer.antt =====
-- response_writer.go: `capturingResponseWriter`, and net/http's ResponseWriter under it.
pub mod Laws
pub mod Commits
mod Runs
use cache_predict.Common.{
  ℕ, ◌+◌, Bool, true, false, not, ◌&&◌, ◌||◌, Option, none, some, List, [], ◌∷◌, ◌++◌, ltb,
  if◌then◌else◌, length,
}
use cache_predict.Common.Int.{ℤ, pos, negsuc}
use cache_predict.Common.Words.{Bytes}
use cache_predict.Common.Text.{codes, has_prefix, is_empty}
use cache_predict.Http
use cache_predict.Http.{Header}

-- What the code does to the writer below it: the first WriteHeader decides the status, and a Write
-- without one means 200. Writes to the connection are taken to succeed.
pub record Client : Type 0 where
  pub header : Header
  pub status : Option ℕ
  pub sent : Bytes
  pub flushes : ℕ
  pub is_flusher : Bool
  pub is_hijacker : Bool

abbrev pub first_status : Option ℕ → ℕ → ℕ
first_status none code = code
first_status (some old) code = old

unfoldable pub send_header : ℕ → Client → Client
send_header code w = record w { status = some (first_status w.status code) }

unfoldable pub send : Bytes → Client → Client
send b w = record w { status = some (first_status w.status 200); sent = w.sent ++ b }

pub record CapturingResponseWriter : Type 0 where
  pub w : Client
  pub header : Header
  pub buf : Bytes
  pub status_code : ℕ
  pub max_bytes : ℤ
  pub header_written : Bool
  pub streaming : Bool
  pub overflow : Bool

-- newCapturingResponseWriter
abbrev pub new_writer : Client → ℤ → CapturingResponseWriter
new_writer w max_bytes = record {
  w = w;
  header = [];
  buf = [];
  status_code = 0;
  max_bytes = max_bytes;
  header_written = false;
  streaming = false;
  overflow = false;
}

-- StatusCode
unfoldable pub status_of : CapturingResponseWriter → ℕ
status_of c = if ltb 0 c.status_code then c.status_code else 200

add_values : Bytes → List Bytes → Header → Header
add_values k [] h = h
add_values k (v ∷ vv) h = add_values k vv (Http.add h k v)

-- for k, vv := range header { for _, v := range vv { w.Header().Add(k, v) } }
unfoldable pub add_all : Header → Header → Header
unfolding add_values
add_all [] h = h
add_all ((k, vv) ∷ rest) h = add_all rest (add_values k vv h)

unfoldable pub commit : CapturingResponseWriter → CapturingResponseWriter
commit c = if c.header_written then c else record c {
  header_written = true;
  w = send_header (status_of c) (record c.w { header = add_all c.header c.w.header });
}

-- The headers announce a stream or an upgrade.
unfoldable pub announces_stream : Header → Bool
announces_stream h =
    has_prefix (Http.get h (codes "Content-Type")) (codes "text/event-stream")
    || not (is_empty (Http.get h (codes "Upgrade")))

unfoldable pub write_header : ℕ → CapturingResponseWriter → CapturingResponseWriter
write_header code c =
    if c.header_written
    then c
    else let c' = record c { status_code = code } in
      if announces_stream c.header then commit (record c' { streaming = true }) else c'

-- The buffered bytes go to the client.
unfoldable pub drain : CapturingResponseWriter → CapturingResponseWriter
drain c = if is_empty c.buf then c else record c { w = send c.buf c.w; buf = [] }

unfoldable pub pass : Bytes → CapturingResponseWriter → CapturingResponseWriter
pass b c = record c { w = send b c.w }

-- `c.maxBytes > 0 && n > c.maxBytes`
unfoldable pub exceeds : ℤ → ℕ → Bool
exceeds (pos m) n = ltb 0 m && ltb m n
exceeds (negsuc m) n = false

unfoldable pub write : Bytes → CapturingResponseWriter → CapturingResponseWriter
write b c =
    if c.streaming
    then pass b (commit c)
    else if exceeds c.max_bytes (length c.buf + length b)
    then pass b (drain (commit (record c { overflow = true; streaming = true })))
    else record c { buf = c.buf ++ b }

unfoldable pub flush_client : Client → Client
flush_client w = if w.is_flusher then record w { flushes = w.flushes + 1 } else w

unfoldable pub flush : CapturingResponseWriter → CapturingResponseWriter
flush c =
    let c' = drain (commit (record c { streaming = true })) in record c' { w = flush_client c'.w }

-- Hijack: whether the connection was handed over
unfoldable pub hijack : CapturingResponseWriter → Bool × CapturingResponseWriter
hijack c = (c.w.is_hijacker, record c { streaming = true })

-- What a handler does with the writer: it changes the header map that `Header` returns in any way, by Set, Add,
-- Del or a write of its own, or calls one of the methods.
pub data Call : Type 0 where
  edit_header : (Header → Header) → Call
  write_header_call : ℕ → Call
  write_call : Bytes → Call
  flush_call : Call
  hijack_call : Call

-- w.Header().Set(name, value)
abbrev pub set_header : Bytes → Bytes → Call
set_header name value = edit_header (λ h. Http.set h name value)

unfoldable pub step : Call → CapturingResponseWriter → CapturingResponseWriter
step (edit_header f) c = record c { header = f c.header }
step (write_header_call code) c = write_header code c
step (write_call b) c = write b c
step flush_call c = flush c
step hijack_call c = (hijack c).1

unfoldable pub run : List Call → CapturingResponseWriter → CapturingResponseWriter
run [] c = c
run (a ∷ calls) c = run calls (step a c)

-- The same calls on the client's own writer.
unfoldable pub client_step : Call → Client → Client
client_step (edit_header f) w = record w { header = f w.header }
client_step (write_header_call code) w = send_header code w
client_step (write_call b) w = send b w
client_step flush_call w = flush_client w
client_step hijack_call w = w

unfoldable pub run_client : List Call → Client → Client
run_client [] w = w
run_client (a ∷ calls) w = run_client calls (client_step a w)
