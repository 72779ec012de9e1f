-- ===== src/Pkg/Semver/Tests.antt =====
-- Versions that are parsed and compared, and the theorem on them.
use ladder_airport.Base.{ℕ, ◌≡◌, refl, Bool, true, false, List, [], ◌∷◌}
use ladder_airport.Pkg.Semver.Text.{
  is_space, is_digit, trim_left, trim_right, trim_both, trim_space, trim_prefix, fields_from,
  fields, before, after_first, split, digits_value, atoi_signed, atoi,
}
use ladder_airport.Pkg.Semver.{
  V, is_all_digits, looks_like_version, find_candidate, parse_nums, parse, cmp_int, cmp_bytes,
  cmp_ident, pre_loop, compare_pre, compare_tail, compare, to_lower, normalize_loose, is_unreleased,
  is_outdated, less,
}
use ladder_airport.Pkg.Semver.Outdated.{IsRelease, is_outdated_lem}

-- "v0.3.1", "0.3.1-rc.2" and "agent 0.3.0+git".
abbrev release : List ℕ
release = b'v' ∷ b'0' ∷ b'.' ∷ b'3' ∷ b'.' ∷ b'1' ∷ []

abbrev candidate : List ℕ
candidate = b'0' ∷ b'.' ∷ b'3' ∷ b'.' ∷ b'1' ∷ b'-' ∷ b'r' ∷ b'c' ∷ b'.' ∷ b'2' ∷ []

abbrev named : List ℕ
named = b'a' ∷ b'g' ∷ 32 ∷ b'0' ∷ b'.' ∷ b'3' ∷ b'.' ∷ b'0' ∷ b'+' ∷ b'g' ∷ []

evaluates : Unit {0}
unfolding is_space is_digit trim_left trim_right trim_both trim_space trim_prefix fields_from fields
    before after_first split digits_value atoi_signed atoi is_all_digits looks_like_version
    find_candidate parse_nums parse cmp_int cmp_bytes cmp_ident pre_loop compare_pre compare_tail
    compare to_lower normalize_loose is_unreleased is_outdated
evaluates = tt

abbrev core_of : V → ℕ × ℕ × ℕ × Bool
core_of v = (v.major, v.minor, v.patch, v.valid)

parse_runs :
    (core_of (parse named) ≡ (0, 3, 0, true))
    × ((parse candidate).pre ≡ b'r' ∷ b'c' ∷ b'.' ∷ b'2' ∷ [])
unfolding evaluates
parse_runs = (refl, refl)

compare_runs :
    (compare (parse candidate) (parse release) ≡ less)
    × (compare (parse named) (parse candidate) ≡ less)
unfolding evaluates
compare_runs = (refl, refl)

named-IsRelease : IsRelease named
unfolding evaluates
named-IsRelease = record { nonempty = refl; released = refl; valid = refl }

candidate-IsRelease : IsRelease candidate
unfolding evaluates
candidate-IsRelease = record { nonempty = refl; released = refl; valid = refl }

release-IsRelease : IsRelease release
unfolding evaluates
release-IsRelease = record { nonempty = refl; released = refl; valid = refl }

is_outdated_lem_example :
    (is_outdated named named ≡ false)
    × (is_outdated named candidate ≡ true → is_outdated candidate named ≡ false)
    × (is_outdated named candidate ≡ true
        → is_outdated candidate release ≡ true
        → is_outdated named release ≡ true)
is_outdated_lem_example =
    is_outdated_lem named candidate release named-IsRelease candidate-IsRelease release-IsRelease
