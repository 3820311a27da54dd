-- ===== src/Cli/Sizes.antt =====
-- src/main.rs: sizes and durations on the command line. Floating-point numbers are a parameter.
use coffer_fs.Base.{
  ℕ, Bool, not, ◌||◌, Option, none, some, String, List, [], ◌∷◌, Result, ok, err, if◌then◌else◌,
}
use coffer_fs.Base.Words.{trim, ends_with, without_last}

-- `f64`, with what the two functions use of it: `parse`, the product with an integer, the tests and
-- the casts. `from_secs_f64` is `Duration::from_secs_f64` in nanoseconds, where it does not panic;
-- `uppercase` is `str::to_uppercase`.
pub record Floats : Type 1 where
  pub F64 : Type 0
  pub parse_f64 : String → Option F64
  pub times : F64 → ℕ → F64
  pub is_finite : F64 → Bool
  pub is_negative : F64 → Bool
  pub to_u64 : F64 → ℕ
  pub from_secs_f64 : F64 → Option ℕ
  pub uppercase : String → String

pub data SizeError : Type 0 where
  invalid negative panicked : SizeError

-- The number in front of a unit, and what the unit stands for.
unfoldable pub split_unit : List (ℕ × ℕ) → String → String × ℕ
unfolding ends_with without_last
split_unit [] s = (s, 1)
split_unit ((letter, factor) ∷ units) s =
    let rest = split_unit units s in if ends_with letter s then (without_last s, factor) else rest

abbrev size_units : List (ℕ × ℕ)
size_units = (75, 1024) ∷ (77, 1048576) ∷ (71, 1073741824) ∷ (84, 1099511627776) ∷ []

abbrev duration_units : List (ℕ × ℕ)
duration_units = (115, 1) ∷ (109, 60) ∷ (104, 3600) ∷ (100, 86400) ∷ []

module _ (F : Floats) where
  open F use {F64, parse_f64, times, is_finite, is_negative, to_u64, from_secs_f64, uppercase}

  abbrev size_of_number : ℕ → Option F64 → Result SizeError ℕ
  size_of_number factor none = err invalid
  size_of_number factor (some v) =
      if not (is_finite v) || is_negative v then err negative else ok (to_u64 (times v factor))

  unfoldable pub parse_size : String → Result SizeError ℕ
  unfolding split_unit trim
  parse_size s =
      let (number, factor) = split_unit size_units (uppercase (trim s)) in
      size_of_number factor (parse_f64 number)

  abbrev or_panic : Option ℕ → Result SizeError ℕ
  or_panic none = err panicked
  or_panic (some d) = ok d

  abbrev duration_of : F64 → Result SizeError ℕ
  duration_of secs =
      if not (is_finite secs) || is_negative secs
      then err negative
      else or_panic (from_secs_f64 secs)

  abbrev duration_of_number : ℕ → Option F64 → Result SizeError ℕ
  duration_of_number factor none = err invalid
  duration_of_number factor (some v) = duration_of (times v factor)

  -- A duration in nanoseconds.
  unfoldable pub parse_duration : String → Result SizeError ℕ
  unfolding split_unit trim
  parse_duration s =
      let (number, factor) = split_unit duration_units (trim s) in
      duration_of_number factor (parse_f64 number)
