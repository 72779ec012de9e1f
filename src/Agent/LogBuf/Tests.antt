-- ===== src/Agent/LogBuf/Tests.antt =====
-- Runs of the ring buffer and the line writer, and the theorems at concrete inputs.

use ladder_airport.Agent.LogBuf.Tail.{wanted}
use ladder_airport.Agent.LogBuf.Seq.{
  Entry, append_all, numbered, tail-append_all, channel, numbers_below,
  channel-append_all-subscribe,
}
use ladder_airport.Agent.LogBuf.Lines.{write-append}
use ladder_airport.Agent.LogBuf.{
  LogBuf, new_log_buf, deliver, line_of, append, read_ring, tail_count, tail, subscribe, LineWriter,
  index_newline, trim_carriage, emit, write_loop, write,
}
use ladder_airport.Base.{drop, ◌-◌, ◌≡◌, refl, some, List, [], ◌∷◌, ◌++◌, arith}

abbrev entries : List Entry
entries =
    record { now = 1; level = "info"; message = b'a' ∷ [] }
    ∷ record { now = 2; level = "info"; message = b'b' ∷ [] }
    ∷ record { now = 3; level = "warn"; message = b'c' ∷ [] }
    ∷ []

abbrev two_slots : LogBuf
two_slots = append_all entries (new_log_buf 2)

tail_runs : tail 5 two_slots ≡ drop 1 (numbered 0 entries)
unfolding tail tail_count read_ring append_all append line_of deliver new_log_buf numbered
tail_runs = refl

tail-append_all_example :
    tail 1 (append_all entries (new_log_buf 2))
    ≡ drop (3 - wanted 1 (new_log_buf 2).size 3) (numbered 0 entries)
tail-append_all_example = tail-append_all 2 1 entries (omega arith)

channel-append_all-subscribe_example :
    channel (subscribe two_slots).0 (append_all entries (subscribe two_slots).1).subs
    ≡ some (numbered two_slots.seq entries)
unfolding append_all append line_of deliver new_log_buf numbers_below
channel-append_all-subscribe_example =
    channel-append_all-subscribe two_slots entries refl (omega arith) (omega arith)

abbrev idle : LineWriter
idle = record { level = "info"; pend = [] }

write-append_example :
    write (λ n. n) ((b'h' ∷ []) ++ b'i' ∷ 13 ∷ 10 ∷ []) idle two_slots
    ≡ write
        (λ n. n)
        (b'i' ∷ 13 ∷ 10 ∷ [])
        (write (λ n. n) (b'h' ∷ []) idle two_slots).0
        (write (λ n. n) (b'h' ∷ []) idle two_slots).1
unfolding index_newline
write-append_example = write-append (λ n. n) (b'h' ∷ []) (b'i' ∷ 13 ∷ 10 ∷ []) idle two_slots refl

write_runs :
    (write (λ n. n) (b'h' ∷ b'i' ∷ 13 ∷ 10 ∷ b'x' ∷ []) idle (new_log_buf 2)).1
    ≡ append 0 "info" (b'h' ∷ b'i' ∷ []) (new_log_buf 2)
unfolding write write_loop index_newline emit trim_carriage new_log_buf
write_runs = refl
