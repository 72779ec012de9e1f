-- ===== src/Agent/LogBuf.antt =====
-- The ring buffer of log lines of agent/internal/control/logbuf.go, its live subscribers, and the
-- writer that cuts a byte stream into lines. Each operation runs under the buffer's mutex, so it is
-- one step on the state; the clock is a parameter. Texts of lines are lists of bytes.
pub mod Ring
pub mod Tail
pub mod Seq
pub mod Lines
mod Tests
use ladder_airport.Base.{
  ltb, ◌==◌, if◌then◌else◌, length, take, drop, get_or, set, replicate, ℕ, zero, suc, ◌+◌, ◌-◌, ◌%◌,
  ◌^◌, String, ◌||◌, Option, none, some, List, [], ◌∷◌, ◌++◌,
}

pub record LogLine : Type 0 where
  pub seq : ℕ
  pub ts_unix_ms : ℕ
  pub level : String
  pub message : List ℕ

abbrev pub zero_line : LogLine
zero_line = record { seq = 0; ts_unix_ms = 0; level = ""; message = [] }

-- `subs` maps a subscriber's number to what its channel holds.
pub record LogBuf : Type 0 where
  pub buf : List LogLine
  pub size : ℕ
  pub next : ℕ
  pub count : ℕ
  pub seq : ℕ
  pub subs : List (ℕ × List LogLine)
  pub sub_next : ℕ

abbrev pub default_log_buf_size : ℕ
default_log_buf_size = 1000

abbrev pub channel_cap : ℕ
channel_cap = 64

unfoldable pub new_log_buf : ℕ → LogBuf
new_log_buf size =
    let n = if size == 0 then default_log_buf_size else size in
    record {
      buf = replicate n zero_line;
      size = n;
      next = 0;
      count = 0;
      seq = 0;
      subs = [];
      sub_next = 0;
    }

-- `select { case ch <- line: default: }` for every subscriber.
unfoldable pub deliver : LogLine → List (ℕ × List LogLine) → List (ℕ × List LogLine)
deliver line [] = []
deliver line ((id, held) ∷ rest) =
    (id, if ltb (length held) channel_cap then held ++ line ∷ [] else held) ∷ deliver line rest

unfoldable pub line_of : ℕ → String → List ℕ → LogBuf → LogLine
line_of now level message b = record {
  seq = (b.seq + 1) % 2 ^ 64;
  ts_unix_ms = now;
  level = level;
  message = message;
}

unfoldable pub append : ℕ → String → List ℕ → LogBuf → LogBuf
append now level message b =
    let line = line_of now level message b in
    record b {
      buf = set b.buf b.next line;
      next = (b.next + 1) % b.size;
      count = if ltb b.count b.size then b.count + 1 else b.count;
      seq = (b.seq + 1) % 2 ^ 64;
      subs = deliver line b.subs;
    }

-- `out[i] = b.buf[(start+i)%b.size]`, for the `n` values of `i` from `i` on.
unfoldable pub read_ring : LogBuf → ℕ → ℕ → ℕ → List LogLine
read_ring b start i zero = []
read_ring b start i (suc n) =
    get_or b.buf ((start + i) % b.size) zero_line ∷ read_ring b start (i + 1) n

unfoldable pub tail_count : ℕ → LogBuf → ℕ
tail_count n b = if n == 0 || ltb b.count n then b.count else n

-- `b.next - n + b.size` is not negative, since `n` is at most `b.size`.
unfoldable pub tail : ℕ → LogBuf → List LogLine
tail n b =
    if b.count == 0
    then []
    else let m = tail_count n b in read_ring b ((b.next + b.size - m) % b.size) 0 m

unfoldable pub subscribe : LogBuf → ℕ × LogBuf
subscribe b =
    (b.sub_next, record b { subs = b.subs ++ (b.sub_next, []) ∷ []; sub_next = b.sub_next + 1 })

-- The cancel function: a second call finds nothing to delete.
unfoldable pub without : ℕ → List (ℕ × List LogLine) → List (ℕ × List LogLine)
without id [] = []
without id ((j, held) ∷ rest) =
    let kept = without id rest in if j == id then kept else (j, held) ∷ kept

unfoldable pub cancel : ℕ → LogBuf → LogBuf
unfolding without
cancel id b = record b { subs = without id b.subs }

-- `lineWriter`: the bytes of a line whose newline has not arrived.
pub record LineWriter : Type 0 where
  pub level : String
  pub pend : List ℕ

abbrev pub newline : ℕ
newline = 10

abbrev pub carriage : ℕ
carriage = 13

-- bytes.IndexByte(p, '\n'), `none` for -1
unfoldable pub index_newline : List ℕ → Option ℕ
index_newline [] = none
index_newline (c ∷ cs) =
    let deeper : Option ℕ = elim (index_newline cs) [ none ↦ none | some i ↦ some (suc i) ] in
    if c == newline then some 0 else deeper

-- A trailing '\r' is cut off.
unfoldable pub trim_carriage : List ℕ → List ℕ
trim_carriage [] = []
trim_carriage (c ∷ []) = if c == carriage then [] else c ∷ []
trim_carriage (c ∷ d ∷ cs) = c ∷ trim_carriage (d ∷ cs)

-- A complete line goes to the buffer unless it is empty. The clock's readings are indexed by the
-- buffer's sequence number, one for each append.
unfoldable pub emit : (ℕ → ℕ) → String → List ℕ → LogBuf → LogBuf
emit clock level [] b = b
emit clock level (c ∷ cs) b = append (clock b.seq) level (c ∷ cs) b

-- The loop of `Write`; each round removes a byte at least, so the bytes pending bound the rounds.
unfoldable pub write_loop : (ℕ → ℕ) → ℕ → LineWriter → LogBuf → LineWriter × LogBuf
write_loop clock zero w b = (w, b)
write_loop clock (suc fuel) w b = elim (index_newline w.pend) [
  | none ↦ (w, b)
  | some i ↦
      write_loop clock fuel (record w { pend = drop (suc i) w.pend })
        (emit clock w.level (trim_carriage (take i w.pend)) b)
]

unfoldable pub write : (ℕ → ℕ) → List ℕ → LineWriter → LogBuf → LineWriter × LogBuf
write clock p w b =
    let pend = w.pend ++ p in write_loop clock (suc (length pend)) (record w { pend = pend }) b
