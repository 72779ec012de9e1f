-- ===== src/Agent/LogBuf/Seq.antt =====
-- A buffer after any run of appends: the sequence numbers, what `Tail` returns, and what a
-- subscriber receives.
use ladder_airport.Agent.LogBuf.Ring.{Holds, new_log_buf-Holds, append-Holds}
use ladder_airport.Agent.LogBuf.Tail.{wanted, tail-drop}
use ladder_airport.Agent.LogBuf.{
  LogLine, LogBuf, channel_cap, new_log_buf, deliver, line_of, append, tail, subscribe,
}
use ladder_airport.Base.{
  ltb, ◌==◌, if◌then◌else◌, length, drop, length-append, ℕ, suc, ◌+◌, ◌-◌, ◌^◌, ◌≤◌, ◌<◌, String,
  ◌≡◌, refl, sym, ap, ap₂, ◌∙◌, subst, Bool, true, ◌&&◌, Option, none, some, List, [], ◌∷◌, ◌++◌,
  append_assoc, append-nil, arith,
}

pub record Entry : Type 0 where
  pub now : ℕ
  pub level : String
  pub message : List ℕ

unfoldable pub append_all : List Entry → LogBuf → LogBuf
append_all [] b = b
append_all (e ∷ es) b = append_all es (append e.now e.level e.message b)

-- The entries as lines numbered from `seq + 1` on.
unfoldable pub numbered : ℕ → List Entry → List LogLine
numbered seq [] = []
numbered seq (e ∷ es) =
    record { seq = suc seq; ts_unix_ms = e.now; level = e.level; message = e.message }
    ∷ numbered (suc seq) es

length-numbered : (seq : ℕ) (es : List Entry) → length (numbered seq es) ≡ length es
unfolding numbered
length-numbered seq [] = refl
length-numbered seq (e ∷ es) = ap suc (length-numbered (suc seq) es)

line_of-numbered :
    (e : Entry) (b : LogBuf)
    → b.seq + 1 < 2 ^ 64
    → (line_of e.now e.level e.message b
        ≡ record { seq = suc b.seq; ts_unix_ms = e.now; level = e.level; message = e.message })
      × ((append e.now e.level e.message b).seq ≡ suc b.seq)
unfolding line_of append
line_of-numbered e b h = (ground arith, omega arith)

append_all-Holds :
    (es : List Entry) (b : LogBuf) (history : List LogLine)
    → Holds b history
    → b.seq + length es < 2 ^ 64
    → Holds (append_all es b) (history ++ numbered b.seq es)
unfolding append_all numbered
append_all-Holds [] b history h small = subst (Holds b) (sym (append-nil history)) h
append_all-Holds (e ∷ es) b history h small =
    let (line, next_seq) = line_of-numbered e b (omega arith) in
    let more =
      append_all-Holds es (append e.now e.level e.message b) _
        (append-Holds e.now e.level e.message b history h) (omega (arith, next_seq)) in
    subst (Holds (append_all es (append e.now e.level e.message b)))
      (append_assoc history _ _
        ∙ ap₂ (λ l ls. history ++ l ∷ ls) line (ap (λ k. numbered k es) next_seq))
      more

seq-new_log_buf : (size : ℕ) → (new_log_buf size).seq ≡ 0
unfolding new_log_buf
seq-new_log_buf size = refl

size-append_all : (es : List Entry) (b : LogBuf) → (append_all es b).size ≡ b.size
unfolding append_all append
size-append_all [] b = refl
size-append_all (e ∷ es) b = size-append_all es (append e.now e.level e.message b)

-- After fewer than 2^64 appends to a new buffer, `Tail n` returns the last of the appended lines,
-- oldest first, numbered by their position from 1: `n` of them, or all that the size allows if `n`
-- is 0 or larger than that.
pub tail-append_all :
    (size n : ℕ) (es : List Entry)
    → length es < 2 ^ 64
    → tail n (append_all es (new_log_buf size))
      ≡ drop (length es - wanted n (new_log_buf size).size (length es)) (numbered 0 es)
tail-append_all size n es small =
    let held =
      append_all-Holds es (new_log_buf size) [] (new_log_buf-Holds size)
        (omega (arith, seq-new_log_buf size)) in
    let held' =
      subst (λ k. Holds (append_all es (new_log_buf size)) (numbered k es)) (seq-new_log_buf size)
        held in
    tail-drop n (append_all es (new_log_buf size)) (numbered 0 es) held'
    ∙ ap₂ (λ len sz. drop (len - wanted n sz len) (numbered 0 es)) (length-numbered 0 es)
        (size-append_all es (new_log_buf size))

-- What the channel of a subscriber holds.
unfoldable pub channel : ℕ → List (ℕ × List LogLine) → Option (List LogLine)
channel id [] = none
channel id ((j, held) ∷ rest) = if j == id then some held else channel id rest

channel-deliver :
    (line : LogLine) (id : ℕ) (subs : List (ℕ × List LogLine)) (held : List LogLine)
    → channel id subs ≡ some held
    → length held < channel_cap
    → channel id (deliver line subs) ≡ some (held ++ line ∷ [])
unfolding channel deliver
channel-deliver line id [] held h room = ground arith
channel-deliver line id ((j, other) ∷ rest) held h room =
    ground (arith, channel-deliver line id rest held)

channel-append_all :
    (es : List Entry) (id : ℕ) (b : LogBuf) (held : List LogLine)
    → channel id b.subs ≡ some held
    → length held + length es ≤ channel_cap
    → b.seq + length es < 2 ^ 64
    → channel id (append_all es b).subs ≡ some (held ++ numbered b.seq es)
unfolding append_all numbered
channel-append_all [] id b held h room small = rw (append-nil held) h
channel-append_all (e ∷ es) id b held h room small =
    let line = line_of e.now e.level e.message b in
    let (named, next_seq) = line_of-numbered e b (omega arith) in
    let got = channel-deliver line id b.subs held h (omega arith) in
    channel-append_all es id (append e.now e.level e.message b) (held ++ line ∷ [])
      (unfold append in got) (omega (arith, length-append held (line ∷ [])))
      (omega (arith, next_seq))
    ∙ ap some (
        append_assoc held _ _
        ∙ ap₂ (λ l ls. held ++ l ∷ ls) named (ap (λ k. numbered k es) next_seq))

-- Subscribers have the numbers below `sub_next`.
unfoldable pub numbers_below : ℕ → List (ℕ × List LogLine) → Bool
numbers_below n [] = true
numbers_below n ((j, held) ∷ rest) = ltb j n && numbers_below n rest

channel-subscribe :
    (n : ℕ) (subs : List (ℕ × List LogLine))
    → numbers_below n subs ≡ true
    → channel n (subs ++ (n, []) ∷ []) ≡ some []
unfolding channel numbers_below
channel-subscribe n [] h = ground arith
channel-subscribe n ((j, held) ∷ rest) h = ground (arith, channel-subscribe n rest)

-- A new subscriber receives the next lines that are appended, up to 64 of them, in order and with
-- consecutive sequence numbers, whoever else is subscribed.
pub channel-append_all-subscribe :
    (b : LogBuf) (es : List Entry)
    → numbers_below b.sub_next b.subs ≡ true
    → length es ≤ 64
    → b.seq + 64 < 2 ^ 64
    → channel (subscribe b).0 (append_all es (subscribe b).1).subs ≡ some (numbered b.seq es)
unfolding subscribe
channel-append_all-subscribe b es below few small =
    channel-append_all es b.sub_next (subscribe b).1 [] (channel-subscribe b.sub_next b.subs below)
      (omega arith) (omega arith)
