-- ===== src/Agent/LogBuf/Lines.antt =====
-- The line writer: cutting the stream into calls of `Write` makes no difference.
use ladder_airport.Agent.LogBuf.{
  LogBuf, LineWriter, newline, index_newline, trim_carriage, emit, write_loop, write,
}
use ladder_airport.Base.{
  ◌==◌, if◌then◌else◌, Bool-cases, Option-cases, length, take, drop, length-drop, ℕ, zero, suc, ◌≤◌,
  ◌<◌, ◌≡◌, refl, sym, ap, ◌∙◌, subst, inl, inr, false, none, some, List, [], ◌∷◌, ◌++◌,
  append_assoc, append-nil, arith,
}

-- One byte at a time: a newline completes the bytes pending, any other byte joins them.
pub feed : (ℕ → ℕ) → List ℕ → LineWriter → LogBuf → LineWriter × LogBuf
feed clock [] w b = (w, b)
feed clock (c ∷ cs) w b =
    if c == newline
    then feed clock cs (record w { pend = [] }) (emit clock w.level (trim_carriage w.pend) b)
    else feed clock cs (record w { pend = w.pend ++ c ∷ [] }) b

-- No newline is pending.
abbrev pub IsPartial : LineWriter → Type 0
IsPartial w = index_newline w.pend ≡ none

index_newline-append :
    (pend : List ℕ) (c : ℕ)
    → index_newline pend ≡ none
    → index_newline (pend ++ c ∷ []) ≡ (if c == newline then some (length pend) else none)
unfolding index_newline
index_newline-append [] c h = ground arith
index_newline-append (x ∷ xs) c h = ground (arith, index_newline-append xs c)

-- The bytes before the first newline, and those behind it.
record Split (p : List ℕ) (i : ℕ) : Type 0 where
  whole : p ≡ take i p ++ newline ∷ drop (suc i) p
  before : index_newline (take i p) ≡ none
  inside : suc i ≤ length p

index_newline-Split : (p : List ℕ) (i : ℕ) → index_newline p ≡ some i → Split p i
unfolding index_newline
index_newline-Split [] i h = absurd (ground arith)
index_newline-Split (c ∷ cs) zero h = record {
  whole = ap (λ x. x ∷ cs) (ground arith);
  before = refl;
  inside = omega arith;
}
index_newline-Split (c ∷ cs) (suc i) h =
    let rest = index_newline-Split cs i (ground arith) in
    let other : (c == newline) ≡ false = ground arith in
    record {
      whole = ap (λ x. c ∷ x) rest.whole;
      before = ground (arith, rest.before, other);
      inside = omega (arith, rest.inside);
    }

feed-append :
    (clock : ℕ → ℕ) (p q : List ℕ) (w : LineWriter) (b : LogBuf)
    → feed clock (p ++ q) w b ≡ feed clock q (feed clock p w b).0 (feed clock p w b).1
unfolding feed
feed-append clock [] q w b = refl
feed-append clock (c ∷ cs) q w b = elim (Bool-cases (c == newline)) [
  | inl ends ↦ rw ends (
      feed-append clock cs q (record w { pend = [] }) (emit clock w.level (trim_carriage w.pend) b))
  | inr joins ↦ rw joins (feed-append clock cs q (record w { pend = w.pend ++ c ∷ [] }) b)
]

-- Bytes without a newline stay pending.
feed-partial :
    (clock : ℕ → ℕ) (p : List ℕ) (w : LineWriter) (b : LogBuf)
    → index_newline p ≡ none
    → feed clock p w b ≡ (record w { pend = w.pend ++ p }, b)
unfolding feed index_newline
feed-partial clock [] w b h = ap (λ x. (record w { pend = x }, b)) (sym (append-nil w.pend))
feed-partial clock (c ∷ cs) w b h =
    let joins : (c == newline) ≡ false = ground arith in
    rw joins (
      feed-partial clock cs (record w { pend = w.pend ++ c ∷ [] }) b (ground arith)
      ∙ ap (λ x. (record w { pend = x }, b)) (append_assoc w.pend (c ∷ []) cs))

feed-line :
    (clock : ℕ → ℕ) (p rest : List ℕ) (w : LineWriter) (b : LogBuf)
    → index_newline p ≡ none
    → feed clock (p ++ newline ∷ rest) w b
      ≡ feed clock rest
          (record w { pend = [] })
          (emit clock w.level (trim_carriage (w.pend ++ p)) b)
unfolding feed
feed-line clock p rest w b h =
    feed-append clock p (newline ∷ rest) w b
    ∙ ap (λ (x : LineWriter × LogBuf). feed clock (newline ∷ rest) x.0 x.1)
        (feed-partial clock p w b h)

emptied : LineWriter → LineWriter
emptied w = record w { pend = [] }

-- With more fuel than bytes, the loop of `Write` feeds all that is pending.
write_loop-feed :
    (clock : ℕ → ℕ) (fuel : ℕ) (w : LineWriter) (b : LogBuf)
    → length w.pend < fuel
    → write_loop clock fuel w b ≡ feed clock w.pend (emptied w) b
unfolding write_loop emptied
write_loop-feed clock zero w b h = elim h [ ]
write_loop-feed clock (suc fuel) w b h = elim (Option-cases (index_newline w.pend)) [
  | inl none_left ↦ ground (arith, none_left, feed-partial clock w.pend (emptied w) b none_left)
  | inr (i, found) ↦
      let s = index_newline-Split w.pend i found in
      ground (
        arith,
        found,
        write_loop-feed clock fuel (record w { pend = drop (suc i) w.pend })
            (emit clock w.level (trim_carriage (take i w.pend)) b)
            (omega (arith, length-drop (suc i) w.pend, s.inside)),
        feed-line clock (take i w.pend) (drop (suc i) w.pend) (emptied w) b s.before,
        s.whole,
      )
]

feed-IsPartial :
    (clock : ℕ → ℕ) (p : List ℕ) (w : LineWriter) (b : LogBuf)
    → IsPartial w
    → IsPartial (feed clock p w b).0
unfolding feed
feed-IsPartial clock [] w b h = h
feed-IsPartial clock (c ∷ cs) w b h = elim (Bool-cases (c == newline)) [
  | inl ends ↦ rw ends (
      feed-IsPartial clock cs (record w { pend = [] }) (emit clock w.level (trim_carriage w.pend) b)
        (unfold index_newline in refl))
  | inr joins ↦ rw joins (
      feed-IsPartial clock cs (record w { pend = w.pend ++ c ∷ [] }) b
        (ground (arith, index_newline-append w.pend c h)))
]

-- A writer with no newline pending handles a chunk as if it were fed byte by byte, and has none
-- pending afterwards.
pub write-feed :
    (clock : ℕ → ℕ) (p : List ℕ) (w : LineWriter) (b : LogBuf)
    → IsPartial w
    → (write clock p w b ≡ feed clock p w b) × IsPartial (write clock p w b).0
unfolding write emptied
write-feed clock p w b h =
    let all_fed : write clock p w b ≡ feed clock p w b =
      write_loop-feed clock (suc (length (w.pend ++ p))) (record w { pend = w.pend ++ p }) b
        (omega arith)
      ∙ feed-append clock w.pend p (emptied w) b
      ∙ ap (λ (x : LineWriter × LogBuf). feed clock p x.0 x.1)
          (feed-partial clock w.pend (emptied w) b h) in
    (
      all_fed,
      subst (λ (x : LineWriter × LogBuf). IsPartial x.0) (sym all_fed)
          (feed-IsPartial clock p w b h),
    )

-- Two calls of `Write` do what one call with both chunks does, wherever the stream is cut: the same
-- lines reach the buffer and the same bytes stay pending.
pub write-append :
    (clock : ℕ → ℕ) (p q : List ℕ) (w : LineWriter) (b : LogBuf)
    → IsPartial w
    → write clock (p ++ q) w b ≡ write clock q (write clock p w b).0 (write clock p w b).1
write-append clock p q w b h =
    let (first, partial) = write-feed clock p w b h in
    (write-feed clock (p ++ q) w b h).0
    ∙ feed-append clock p q w b
    ∙ ap (λ (x : LineWriter × LogBuf). feed clock q x.0 x.1) (sym first)
    ∙ sym (write-feed clock q (write clock p w b).0 (write clock p w b).1 partial).0
