-- ===== src/Agent/LogBuf/Ring.antt =====
-- The ring refines the history of all lines appended.
use ladder_airport.Base.{
  ltb, if◌then◌else◌, Bool-cases, length, get_or, set, length-append, length-set, length-replicate,
  get_or-set_self, get_or-set_ne, ℕ, zero, suc, ◌+◌, ◌-◌, ◌%◌, ◌<◌, min, String, ◌≡◌, refl, sym, ap,
  ◌∙◌, ◌≢◌, inl, inr, List, [], ◌∷◌, ◌++◌, arith,
}
use ladder_airport.Agent.LogBuf.{LogLine, zero_line, LogBuf, new_log_buf, line_of, append}

-- `b` holds the last `b.count` lines of `history`, in the slots before `b.next`.
pub record Holds (b : LogBuf) (history : List LogLine) : Type 0 where
  pub positive : 0 < b.size
  pub slots : length b.buf ≡ b.size
  pub next : b.next < b.size
  pub count : b.count ≡ min b.size (length history)
  pub recent :
      (k : ℕ)
      → k < b.count
      → get_or b.buf ((b.next + b.size - suc k) % b.size) zero_line
        ≡ get_or history (length history - suc k) zero_line

pub mod_wrap : (x n : ℕ) → x < n → (x + n) % n ≡ x
mod_wrap x n h = grind arith

pub mod_small : (x n : ℕ) → x < n → x % n ≡ x
mod_small x n h = grind arith

pub mod_self : (n : ℕ) → 0 < n → n % n ≡ 0
mod_self n h = grind arith

get_or-last : {A : Type 0} (xs : List A) (x d : A) → get_or (xs ++ x ∷ []) (length xs) d ≡ x
get_or-last [] x d = refl
get_or-last (y ∷ ys) x d = get_or-last ys x d

get_or-init :
    {A : Type 0} (xs : List A) (x d : A) (i : ℕ)
    → i < length xs
    → get_or (xs ++ x ∷ []) i d ≡ get_or xs i d
get_or-init [] x d i h = elim h [ ]
get_or-init (y ∷ ys) x d zero h = refl
get_or-init (y ∷ ys) x d (suc i) h = get_or-init ys x d i (omega arith)

-- A new buffer holds the empty history.
pub new_log_buf-Holds : (size : ℕ) → Holds (new_log_buf size) []
unfolding new_log_buf
new_log_buf-Holds size = record {
  positive = ground arith;
  slots = length-replicate _ zero_line;
  next = ground arith;
  count = ground arith;
  recent = λ k h. elim h [ ];
}

-- The slot of the line `k` before the newest: the one just below `next`, wrapped.
slot_mod :
    (next size k : ℕ)
    → next < size
    → k < size
    → (next + size - suc k) % size ≡ (if ltb k next then next - suc k else next + size - suc k)
slot_mod next size k h h' = elim (Bool-cases (ltb k next)) [
  | inl low ↦
      let e : next + size - suc k ≡ (next - suc k) + size = ground arith in
      rw (low, e) (mod_wrap (next - suc k) size (omega arith))
  | inr high ↦ rw high (mod_small (next + size - suc k) size (ground arith))
]

next_mod :
    (next size : ℕ)
    → next < size
    → (next + 1) % size ≡ (if ltb (next + 1) size then next + 1 else 0)
next_mod next size h = elim (Bool-cases (ltb (next + 1) size)) [
  | inl low ↦ rw low (mod_small (next + 1) size (ground arith))
  | inr high ↦ let e : next + 1 ≡ size = ground arith in rw (high, e) (mod_self size (omega arith))
]

slot_newest : (next size : ℕ) → next < size → ((next + 1) % size + size - 1) % size ≡ next
slot_newest next size h = elim (Bool-cases (ltb (next + 1) size)) [
  | inl low ↦
      let e : (next + 1) % size + size - 1 ≡ next + size = ground (arith, next_mod next size h) in
      rw e (mod_wrap next size h)
  | inr high ↦
      let e : (next + 1) % size + size - 1 ≡ next = ground (arith, next_mod next size h) in
      rw e (mod_small next size h)
]

-- The slot of the line `k + 1` before the newest was that of the line `k` before.
slot_older :
    (next size k : ℕ)
    → next < size
    → suc k < size
    → ((next + 1) % size + size - suc (suc k)) % size ≡ (next + size - suc k) % size
slot_older next size k h h' = ground (
  arith,
  next_mod next size h,
  slot_mod next size k h (omega arith),
  slot_mod ((next + 1) % size) size (suc k),
)

slot_other : (next size k : ℕ) → next < size → suc k < size → next ≢ (next + size - suc k) % size
slot_other next size k h h' = ground (arith, slot_mod next size k h (omega arith))

pub append-Holds :
    (now : ℕ) (level : String) (message : List ℕ) (b : LogBuf) (history : List LogLine)
    → Holds b history
    → Holds (append now level message b) (history ++ line_of now level message b ∷ [])
unfolding append
append-Holds now level message b history h = record {
  positive = h.positive;
  slots = length-set b.buf b.next line ∙ h.slots;
  next = ground (arith, next_mod b.next b.size h.next);
  count = ground (arith, h.count, grown);
  recent = elim [ zero ↦ λ _. newest | suc k ↦ λ below. older k (ground (arith, h.count)) ];
}
  where
    line : LogLine
    line = line_of now level message b

    grown : length (history ++ line ∷ []) ≡ length history + 1
    grown = length-append history (line ∷ [])

    longer : List LogLine
    longer = history ++ line ∷ []

    slots' : List LogLine
    slots' = set b.buf b.next line

    newest :
        get_or slots' (((b.next + 1) % b.size + b.size - 1) % b.size) zero_line
        ≡ get_or longer (length longer - 1) zero_line
    newest =
        ap (λ i. get_or slots' i zero_line) (slot_newest b.next b.size h.next)
        ∙ get_or-set_self b.buf b.next line zero_line (omega (arith, h.slots, h.next))
        ∙ sym (
            ap (λ i. get_or longer i zero_line) (omega (arith, grown))
            ∙ get_or-last history line zero_line)

    older :
        (k : ℕ)
        → (k < b.count) × (suc k < b.size)
        → get_or slots' (((b.next + 1) % b.size + b.size - suc (suc k)) % b.size) zero_line
          ≡ get_or longer (length longer - suc (suc k)) zero_line
    older k (held, room) =
        ap (λ i. get_or slots' i zero_line) (slot_older b.next b.size k h.next room)
        ∙ get_or-set_ne b.buf b.next _ line zero_line (slot_other b.next b.size k h.next room)
        ∙ h.recent k held
        ∙ sym (
            ap (λ i. get_or longer i zero_line) (omega (arith, grown))
            ∙ get_or-init history line zero_line (length history - suc k) (omega (arith, h.count)))
