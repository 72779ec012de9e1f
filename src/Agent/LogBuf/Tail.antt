-- ===== src/Agent/LogBuf/Tail.antt =====
-- Tail, and a buffer after a run of appends, against the list of all lines appended.
use native.Mathlib.Nat.{mod-add-mod}
use ladder_airport.Agent.LogBuf.Ring.{Holds}
use ladder_airport.Agent.LogBuf.{LogLine, zero_line, LogBuf, read_ring, tail_count, tail}
use ladder_airport.Base.{
  ◌==◌, if◌then◌else◌, Bool-cases, length, drop, get_or, ℕ, zero, suc, ◌+◌, ◌-◌, ◌%◌, ◌≤◌, ◌<◌, min,
  ◌≡◌, refl, sym, ap, ap₂, ◌∙◌, inl, inr, List, [], ◌∷◌, arith,
}

drop-get_or :
    {A : Type 0} (xs : List A) (j : ℕ) (d : A)
    → j < length xs
    → drop j xs ≡ get_or xs j d ∷ drop (suc j) xs
drop-get_or [] j d h = elim h [ ]
drop-get_or (x ∷ xs) zero d h = refl
drop-get_or (x ∷ xs) (suc j) d h = drop-get_or xs j d (omega arith)

drop_all : {A : Type 0} (xs : List A) (n : ℕ) → length xs ≤ n → drop n xs ≡ []
drop_all [] zero h = refl
drop_all [] (suc n) h = refl
drop_all (x ∷ xs) zero h = elim h [ ]
drop_all (x ∷ xs) (suc n) h = drop_all xs n (omega arith)

module _ (b : LogBuf) (history : List LogLine) (h : Holds b history) where
  -- With `n` of `m` lines left to read, the ring is read at the line `n - 1` before the newest.
  read_slot :
      (m i n : ℕ)
      → i + suc n ≡ m
      → m ≤ b.count
      → ((b.next + b.size - m) % b.size + i) % b.size ≡ (b.next + b.size - suc n) % b.size
  read_slot m i n e le =
      mod-add-mod (b.next + b.size - m) b.size i ∙ ap (λ x. x % b.size) (omega (arith, h.count))

  read_ring-drop :
      (m i n : ℕ)
      → i + n ≡ m
      → m ≤ b.count
      → read_ring b ((b.next + b.size - m) % b.size) i n ≡ drop (length history - n) history
  unfolding read_ring
  read_ring-drop m i zero e le = sym (drop_all history (length history - zero) (omega arith))
  read_ring-drop m i (suc n) e le =
      let index : suc (length history - suc n) ≡ length history - n = omega (arith, h.count) in
      ap₂ (λ x rest. x ∷ rest)
        (ap (λ j. get_or b.buf j zero_line) (read_slot m i n e le) ∙ h.recent n (omega arith))
        (read_ring-drop m (i + 1) n (omega arith) le)
      ∙ sym (
          drop-get_or history (length history - suc n) zero_line (omega (arith, h.count))
          ∙ ap (λ j. get_or history (length history - suc n) zero_line ∷ drop j history) index)

-- How many of `len` lines a call of `Tail n` on a ring of `size` slots is to give.
abbrev pub wanted : ℕ → ℕ → ℕ → ℕ
wanted n size len = if n == 0 then min size len else min n (min size len)

tail_count-wanted :
    (n : ℕ) (b : LogBuf) (history : List LogLine)
    → Holds b history
    → (tail_count n b ≡ wanted n b.size (length history)) × (tail_count n b ≤ b.count)
unfolding tail_count
tail_count-wanted n b history h = (ground (arith, h.count), ground arith)

-- If the ring holds the last lines of a history, `Tail n` is the last lines of that history, oldest
-- first: `n` of them, or as many as the ring holds if `n` is 0 or larger than that.
pub tail-drop :
    (n : ℕ) (b : LogBuf) (history : List LogLine)
    → Holds b history
    → tail n b ≡ drop (length history - wanted n b.size (length history)) history
unfolding tail
tail-drop n b history h = elim (Bool-cases (b.count == 0)) [
  | inl nothing ↦ ground (arith, nothing, h.count, h.positive, drop_all history (length history))
  | inr something ↦ ground (
    arith,
    something,
    read_ring-drop b history h (tail_count n b) 0 (tail_count n b) (omega arith),
    tail_count-wanted n b history h,
  )
]
