-- ===== src/Pkg/Semver.antt =====
-- pkg/semver/semver.go: versions, their comparison and the decision whether an agent is outdated.
-- Text is a list of its bytes and is ASCII; an `int` is its distance from the least one, -2^63.
pub mod Text
pub mod Order
pub mod Total
pub mod Outdated
mod Tests
use ladder_airport.Base.{
  ltb, leb, ◌==◌, if◌then◌else◌, length, get_or, all, any, ℕ, zero, suc, ◌+◌, ◌-◌, ◌^◌, Bool, true,
  false, not, ◌&&◌, ◌||◌, Option, none, some, List, [], ◌∷◌, map,
}
use ladder_airport.Pkg.Semver.Text.{
  is_empty, map_option, is_digit, trim_both, trim_space, trim_prefix, fields, before, after_first,
  split, atoi,
}

-- `Pre` is the part behind the dash. `Valid` is false if there is no numeric core.
pub record V : Type 0 where
  pub major : ℕ
  pub minor : ℕ
  pub patch : ℕ
  pub pre : List ℕ
  pub raw : List ℕ
  pub valid : Bool

abbrev pub invalid : List ℕ → V
invalid raw = record { major = 0; minor = 0; patch = 0; pre = []; raw = raw; valid = false }

-- A leading `v`, and then a leading `V`.
abbrev pub trim_v : List ℕ → List ℕ
trim_v s = trim_prefix b'V' (trim_prefix b'v' s)

unfoldable pub is_all_digits : List ℕ → Bool
is_all_digits s = all is_digit s

abbrev is_mark : ℕ → Bool
is_mark c = c == b'.' || c == b'+' || c == b'-'

unfoldable pub looks_like_version : List ℕ → Bool
looks_like_version s0 = elim (trim_v s0) [
  | [] ↦ false
  | c ∷ cs ↦ if is_digit c then any is_mark (c ∷ cs) || is_all_digits (c ∷ cs) else false
]

-- The cutset of `strings.Trim`: , ; ( ) [ ] { }
abbrev is_cut : ℕ → Bool
is_cut c = c == 44 || c == 59 || c == 40 || c == 41 || c == 91 || c == 93 || c == 123 || c == 125

-- The first field that looks like a version, or the whole text.
unfoldable pub find_candidate : List ℕ → List (List ℕ) → List ℕ
find_candidate raw [] = raw
find_candidate raw (part ∷ parts) =
    let p = trim_both is_cut part in
    let rest = find_candidate raw parts in if looks_like_version p then p else rest

-- Three numeric segments at most; those behind are not read. The least `int` is 0 here, so a number
-- that is not negative is at least 2^63.
unfoldable pub parse_nums : ℕ → List (List ℕ) → Option (List ℕ)
parse_nums zero segs = some []
parse_nums (suc k) [] = some []
parse_nums (suc k) (seg ∷ segs) =
    let rest = parse_nums k segs in
    elim (atoi seg) [
      | none ↦ none
      | some n ↦ if ltb n (2 ^ 63) then none else map_option (λ ns. (n - 2 ^ 63) ∷ ns) rest
    ]

unfoldable pub parse : List ℕ → V
parse s =
    let raw = trim_space s in
    let candidate = trim_v (trim_space (find_candidate raw (fields raw))) in
    let version = before b'+' candidate in
    elim (parse_nums 3 (split b'.' (before b'-' version))) [
      | none ↦ invalid raw
      | some nums ↦ if is_empty raw then invalid raw else record {
        major = get_or nums 0 0;
        minor = get_or nums 1 0;
        patch = get_or nums 2 0;
        pre = after_first b'-' version;
        raw = raw;
        valid = true;
      }
    ]

-- The result of a comparison: -1, 0 or 1.
pub data Sign : Type 0 where
  less same more : Sign

unfoldable pub cmp_int : ℕ → ℕ → Sign
cmp_int a b = if ltb a b then less else if ltb b a then more else same

-- The order of Go strings, by their bytes.
unfoldable pub cmp_bytes : List ℕ → List ℕ → Sign
cmp_bytes [] [] = same
cmp_bytes [] (_ ∷ _) = less
cmp_bytes (_ ∷ _) [] = more
cmp_bytes (a ∷ xs) (b ∷ ys) =
    let rest = cmp_bytes xs ys in elim (cmp_int a b) [ less ↦ less | same ↦ rest | more ↦ more ]

-- The step of `comparePre` for two identifiers: `same` goes on with the next ones.
unfoldable pub cmp_ident : List ℕ → List ℕ → Sign
cmp_ident a b = elim (atoi a) [
  | some ai ↦ elim (atoi b) [ some bi ↦ cmp_int ai bi | none ↦ less ]
  | none ↦ elim (atoi b) [ some bi ↦ more | none ↦ cmp_bytes a b ]
]

-- The loop over the identifiers that both have; at its end their numbers `n` and `m` decide.
unfoldable pub pre_loop : ℕ → ℕ → List (List ℕ) → List (List ℕ) → Sign
pre_loop n m [] ys = cmp_int n m
pre_loop n m (a ∷ xs) [] = cmp_int n m
pre_loop n m (a ∷ xs) (b ∷ ys) =
    let rest = pre_loop n m xs ys in
    elim (cmp_ident a b) [ less ↦ less | same ↦ rest | more ↦ more ]

unfoldable pub compare_pre : List ℕ → List ℕ → Sign
compare_pre a b =
    let xs = split b'.' a in let ys = split b'.' b in pre_loop (length xs) (length ys) xs ys

-- A version without a prerelease is above those with one.
unfoldable pub compare_tail : List ℕ → List ℕ → Sign
compare_tail a b =
    if is_empty a && is_empty b
    then same
    else if is_empty a
    then more
    else if is_empty b
    then less
    else compare_pre a b

unfoldable pub compare : V → V → Sign
compare a b =
    if not a.valid && not b.valid
    then same
    else if not a.valid
    then less
    else if not b.valid
    then more
    else if not (a.major == b.major)
    then cmp_int a.major b.major
    else if not (a.minor == b.minor)
    then cmp_int a.minor b.minor
    else if not (a.patch == b.patch)
    then cmp_int a.patch b.patch
    else compare_tail a.pre b.pre

unfoldable pub to_lower : List ℕ → List ℕ
to_lower s = map (λ c. if leb b'A' c && leb c b'Z' then c + 32 else c) s

unfoldable pub normalize_loose : List ℕ → List ℕ
normalize_loose v = to_lower (trim_v (trim_space v))

abbrev pub is_less : Sign → Bool
is_less less = true
is_less _ = false

abbrev pub same_bytes : List ℕ → List ℕ → Bool
same_bytes [] [] = true
same_bytes [] (_ ∷ _) = false
same_bytes (_ ∷ _) [] = false
same_bytes (a ∷ xs) (b ∷ ys) = a == b && same_bytes xs ys

abbrev unknown_text : List ℕ
unknown_text = b'u' ∷ b'n' ∷ b'k' ∷ b'n' ∷ b'o' ∷ b'w' ∷ b'n' ∷ []

abbrev dev_text : List ℕ
dev_text = b'd' ∷ b'e' ∷ b'v' ∷ []

-- Whether the current version says that it is no release.
unfoldable pub is_unreleased : List ℕ → Bool
is_unreleased low = same_bytes low unknown_text || same_bytes low dev_text

unfoldable pub is_outdated : List ℕ → List ℕ → Bool
is_outdated current recommended =
    let rec_raw = trim_space recommended in
    let cur_raw = trim_space current in
    let cur = parse cur_raw in
    let target = parse rec_raw in
    if is_empty rec_raw
    then false
    else if is_empty cur_raw
    then true
    else if is_unreleased (to_lower cur_raw)
    then true
    else if cur.valid && target.valid
    then is_less (compare cur target)
    else if target.valid && not cur.valid
    then true
    else if cur.valid && not target.valid
    then false
    else not (same_bytes (normalize_loose cur_raw) (normalize_loose rec_raw))
