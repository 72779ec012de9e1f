-- ===== src/Pkg/Semver/Total.antt =====
-- The comparison of versions is a total preorder.
use ladder_airport.Base.{
  length, ℕ, ◌+◌, ◌≡◌, refl, Bool, true, false, Option, none, some, List, [], ◌∷◌, arith,
}
use ladder_airport.Pkg.Semver.Text.{split, atoi}
use ladder_airport.Pkg.Semver.{
  V, Sign, cmp_int, cmp_bytes, cmp_ident, pre_loop, compare_pre, compare_tail, compare, less, same,
  more,
}
use ladder_airport.Pkg.Semver.Order.{
  swap, IsOrder, and_then, cmp_list, transfer-IsOrder, on-IsOrder, cmp_int-IsOrder, then-IsOrder,
  cmp_list-IsOrder,
}

bytes_eq : (a b : List ℕ) → cmp_bytes a b ≡ cmp_list cmp_int a b
unfolding cmp_bytes cmp_list
bytes_eq [] [] = refl
bytes_eq [] (_ ∷ _) = refl
bytes_eq (_ ∷ _) [] = refl
bytes_eq (a ∷ xs) (b ∷ ys) = ground (arith, bytes_eq xs ys)

cmp_bytes-IsOrder : IsOrder cmp_bytes
cmp_bytes-IsOrder =
    transfer-IsOrder (cmp_list cmp_int) cmp_bytes bytes_eq
      (cmp_list-IsOrder cmp_int cmp_int-IsOrder)

-- Numbers are below texts; `texts` is the order of the texts.
abbrev by_number : Option ℕ → Option ℕ → Sign → Sign
by_number (some a) (some b) texts = cmp_int a b
by_number (some a) none texts = less
by_number none (some b) texts = more
by_number none none texts = texts

ident_eq : (a b : List ℕ) → cmp_ident a b ≡ by_number (atoi a) (atoi b) (cmp_bytes a b)
unfolding cmp_ident
ident_eq a b = ground arith

number_flip : (a b : Option ℕ) (s t : Sign) → t ≡ swap s → by_number b a t ≡ swap (by_number a b s)
number_flip (some a) (some b) s t e = cmp_int-IsOrder.flip a b
number_flip (some a) none s t e = refl
number_flip none (some b) s t e = refl
number_flip none none s t e = e

number_trans :
    (a b c : Option ℕ) (s t u : Sign)
    → (s ≡ less → t ≡ less → u ≡ less)
    → by_number a b s ≡ less
    → by_number b c t ≡ less
    → by_number a c u ≡ less
number_trans (some a) (some b) (some c) s t u e h k = cmp_int-IsOrder.trans a b c h k
number_trans (some a) b none s t u e h k = refl
number_trans (some a) none (some c) s t u e h k = absurd (cc k)
number_trans none (some b) c s t u e h k = absurd (cc h)
number_trans none none (some c) s t u e h k = absurd (cc k)
number_trans none none none s t u e h k = e h k

number_congruent :
    (a b c : Option ℕ) (s t u : Sign)
    → (s ≡ same → u ≡ t)
    → by_number a b s ≡ same
    → by_number a c u ≡ by_number b c t
number_congruent (some a) (some b) (some c) s t u e h = cmp_int-IsOrder.congruent a b c h
number_congruent (some a) (some b) none s t u e h = refl
number_congruent (some a) none c s t u e h = absurd (cc h)
number_congruent none (some b) c s t u e h = absurd (cc h)
number_congruent none none (some c) s t u e h = refl
number_congruent none none none s t u e h = e h

cmp_ident-IsOrder : IsOrder cmp_ident
cmp_ident-IsOrder =
    transfer-IsOrder (λ a b. by_number (atoi a) (atoi b) (cmp_bytes a b)) cmp_ident ident_eq
      (record {
        flip = λ a b. number_flip (atoi a) (atoi b) _ _ (cmp_bytes-IsOrder.flip a b);
        trans =
            λ a b c. number_trans (atoi a) (atoi b) (atoi c) _ _ _ (cmp_bytes-IsOrder.trans a b c);
        congruent = λ a b c.
            number_congruent (atoi a) (atoi b) (atoi c) _ _ _ (cmp_bytes-IsOrder.congruent a b c);
      })

-- The loop, which compares the numbers of identifiers at its end, is the lexicographic order.
loop_eq :
    (n m : ℕ) (xs ys : List (List ℕ))
    → n + length ys ≡ m + length xs
    → pre_loop n m xs ys ≡ cmp_list cmp_ident xs ys
unfolding pre_loop cmp_list cmp_int
loop_eq n m [] [] h = ground (arith, h)
loop_eq n m [] (y ∷ ys) h = ground (arith, h)
loop_eq n m (x ∷ xs) [] h = ground (arith, h)
loop_eq n m (x ∷ xs) (y ∷ ys) h = ground (arith, loop_eq n m xs ys (omega (arith, h)))

-- The comparison of prereleases is the lexicographic order of their identifiers.
compare_pre_eq : (a b : List ℕ) → compare_pre a b ≡ cmp_list cmp_ident (split b'.' a) (split b'.' b)
unfolding compare_pre
compare_pre_eq a b =
    loop_eq (length (split b'.' a)) (length (split b'.' b)) (split b'.' a) (split b'.' b)
      (omega arith)

compare_pre-IsOrder : IsOrder compare_pre
compare_pre-IsOrder =
    transfer-IsOrder (λ a b. cmp_list cmp_ident (split b'.' a) (split b'.' b)) compare_pre
      compare_pre_eq
      (on-IsOrder (split b'.') (cmp_list cmp_ident) (cmp_list-IsOrder cmp_ident cmp_ident-IsOrder))

tail_flip : (a b : List ℕ) → compare_tail b a ≡ swap (compare_tail a b)
unfolding compare_tail
tail_flip [] [] = refl
tail_flip [] (_ ∷ _) = refl
tail_flip (_ ∷ _) [] = refl
tail_flip (a ∷ xs) (b ∷ ys) = compare_pre-IsOrder.flip (a ∷ xs) (b ∷ ys)

tail_trans :
    (a b c : List ℕ) → compare_tail a b ≡ less → compare_tail b c ≡ less → compare_tail a c ≡ less
unfolding compare_tail
tail_trans [] [] c h k = absurd (cc h)
tail_trans [] (_ ∷ _) c h k = absurd (cc h)
tail_trans (_ ∷ _) [] [] h k = refl
tail_trans (_ ∷ _) [] (_ ∷ _) h k = absurd (cc k)
tail_trans (_ ∷ _) (_ ∷ _) [] h k = refl
tail_trans (a ∷ xs) (b ∷ ys) (c ∷ zs) h k = compare_pre-IsOrder.trans (a ∷ xs) (b ∷ ys) (c ∷ zs) h k

tail_congruent : (a b c : List ℕ) → compare_tail a b ≡ same → compare_tail a c ≡ compare_tail b c
unfolding compare_tail
tail_congruent [] [] c h = refl
tail_congruent [] (_ ∷ _) c h = absurd (cc h)
tail_congruent (_ ∷ _) [] c h = absurd (cc h)
tail_congruent (_ ∷ _) (_ ∷ _) [] h = refl
tail_congruent (a ∷ xs) (b ∷ ys) (c ∷ zs) h =
    compare_pre-IsOrder.congruent (a ∷ xs) (b ∷ ys) (c ∷ zs) h

compare_tail-IsOrder : IsOrder compare_tail
compare_tail-IsOrder = record { flip = tail_flip; trans = tail_trans; congruent = tail_congruent }

-- The numbers from the major one on, and the prerelease.
abbrev by_numbers : V → V → Sign
by_numbers a b = and_then (cmp_int a.major b.major) (
    and_then (cmp_int a.minor b.minor)
      (and_then (cmp_int a.patch b.patch) (compare_tail a.pre b.pre)))

by_numbers-IsOrder : IsOrder by_numbers
by_numbers-IsOrder = then-IsOrder _ _ (on-IsOrder (λ (v : V). v.major) cmp_int cmp_int-IsOrder) (
    then-IsOrder _ _ (on-IsOrder (λ (v : V). v.minor) cmp_int cmp_int-IsOrder) (
      then-IsOrder _ _ (on-IsOrder (λ (v : V). v.patch) cmp_int cmp_int-IsOrder)
        (on-IsOrder (λ (v : V). v.pre) compare_tail compare_tail-IsOrder)))

-- Versions that are not valid are below those that are.
abbrev by_valid : Bool → Bool → Sign → Sign
by_valid false false s = same
by_valid false true s = less
by_valid true false s = more
by_valid true true s = s

compare_eq : (a b : V) → compare a b ≡ by_valid a.valid b.valid (by_numbers a b)
unfolding compare cmp_int
compare_eq a b = ground arith

valid_trans :
    (a b c : Bool) (s t u : Sign)
    → (s ≡ less → t ≡ less → u ≡ less)
    → by_valid a b s ≡ less
    → by_valid b c t ≡ less
    → by_valid a c u ≡ less
valid_trans a b c s t u e h k = ground (arith, h, k, e)

valid_congruent :
    (a b c : Bool) (s t u : Sign)
    → (s ≡ same → u ≡ t)
    → by_valid a b s ≡ same
    → by_valid a c u ≡ by_valid b c t
valid_congruent a b c s t u e h = ground (arith, h, e)

-- The comparison of versions is a total preorder: the turned comparison is the opposite one, being
-- less is transitive, and two versions that compare as the same compare alike with any other.
pub compare-IsOrder : IsOrder compare
compare-IsOrder =
    transfer-IsOrder (λ a b. by_valid a.valid b.valid (by_numbers a b)) compare compare_eq
      (record {
        flip = λ a b. ground (arith, by_numbers-IsOrder.flip a b);
        trans = λ a b c. valid_trans a.valid b.valid c.valid _ _ _ (by_numbers-IsOrder.trans a b c);
        congruent = λ a b c.
            valid_congruent a.valid b.valid c.valid _ _ _ (by_numbers-IsOrder.congruent a b c);
      })
