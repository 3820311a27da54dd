-- ===== src/Progress.antt =====
-- src/progress.rs: the progress line of a backup, and `human_size` of src/main.rs. A text is its bytes.
pub mod Width
pub mod Line
mod Tests
use coffer_fs.Base.{
  ℕ, suc, ◌+◌, ◌-◌, ◌*◌, ◌/◌, ◌%◌, ◌^◌, min, Bool, true, false, Option, none, some, List, [], ◌∷◌,
  ◌++◌, ltb, ◌==◌, if◌then◌else◌, length, replicate, as_bytes, String,
}
use coffer_fs.Db.Container.Decimal.{to_string}

-- `f64`, with what the two functions use of it; `shown` is the format {:.1}, and `per_second`
-- divides by the seconds of a time in nanoseconds.
pub record Speeds : Type 1 where
  pub F64 : Type 0
  pub of_u64 : ℕ → F64
  pub at_least_1024 : F64 → Bool
  pub over_1024 : F64 → F64
  pub shown : F64 → List ℕ
  pub per_second : ℕ → ℕ → F64
  pub quotient : ℕ → F64 → F64
  pub is_positive : F64 → Bool
  pub zero_f64 : F64
  pub to_u64 : F64 → ℕ

abbrev pub decimal : ℕ → List ℕ
unfolding to_string as_bytes
decimal n = as_bytes (to_string n)

-- {:>w}, {:<w} and {:02}
abbrev pub flush_right : ℕ → List ℕ → List ℕ
flush_right w s = replicate (w - length s) 32 ++ s

abbrev pub flush_left : ℕ → List ℕ → List ℕ
flush_left w s = s ++ replicate (w - length s) 32

abbrev pub two_digits : ℕ → List ℕ
two_digits n = if ltb n 10 then 48 ∷ decimal n else decimal n

-- 0:07, 12:34, 1:02:03
abbrev pub format_duration : ℕ → List ℕ
format_duration secs =
    let h = secs / 3600 in
    let m = secs / 60 % 60 in
    let s = secs % 60 in
    if ltb 0 h
    then decimal h ++ (58 ∷ two_digits m ++ (58 ∷ two_digits s))
    else decimal m ++ (58 ∷ two_digits s)

abbrev pub with_rest : ℕ → List ℕ → List ℕ
with_rest b [] = if b == 32 then [] else b ∷ []
with_rest b (c ∷ bs) = b ∷ c ∷ bs

-- `trim_end`, of a text in which blanks are the only white space.
unfoldable pub trim_blanks : List ℕ → List ℕ
trim_blanks [] = []
trim_blanks (b ∷ bs) = with_rest b (trim_blanks bs)

abbrev pub bar : ℕ → ℕ → List ℕ
bar width filled =
    if ltb filled width then replicate filled 61 ++ (62 ∷ []) else replicate filled 61

-- The product wraps in a release build.
abbrev pub filled_of : ℕ → ℕ → ℕ → ℕ
filled_of width done total = if total == 0 then width else width * done % 2 ^ 64 / total

abbrev pub percent : ℕ → ℕ → ℕ
percent done total = if total == 0 then 100 else done * 100 % 2 ^ 64 / total

-- "[" + bar + "] " in front of the text, where there is room for it.
abbrev pub with_bar : ℕ → ℕ → ℕ → List ℕ → List ℕ
with_bar room done total text =
    let width = min room 40 in
    91 ∷ flush_left width (bar width (filled_of width done total)) ++ (93 ∷ 32 ∷ trim_blanks text)

abbrev pub fitted : ℕ → ℕ → ℕ → List ℕ → List ℕ
fitted width done total text =
    let room = width - (1 + length text + 3) in
    if ltb room 10 then trim_blanks text else with_bar room done total text

module _ (S : Speeds) where
  open S use {
    F64, of_u64, at_least_1024, over_1024, shown, per_second, quotient, is_positive, zero_f64,
    to_u64,
  }

  -- The loop over the units: the last one takes what is left.
  unfoldable pub in_units : List ℕ → List (List ℕ) → F64 → List ℕ
  in_units unit [] v = shown v ++ (32 ∷ unit)
  in_units unit (u ∷ units) v =
      let larger = in_units u units (over_1024 v) in
      if at_least_1024 v then larger else shown v ++ (32 ∷ unit)

  unfoldable pub human_size : ℕ → List ℕ
  unfolding in_units as_bytes to_string
  human_size bytes =
      if at_least_1024 (of_u64 bytes)
      then in_units (as_bytes "KiB") (as_bytes "MiB" ∷ as_bytes "GiB" ∷ as_bytes "TiB" ∷ [])
          (over_1024 (of_u64 bytes))
      else decimal bytes ++ as_bytes " B"

  abbrev pub time_text : ℕ → F64 → Bool → ℕ → List ℕ
  unfolding as_bytes
  time_text left rate true secs = format_duration secs
  time_text left rate false secs =
      if is_positive rate
      then as_bytes "ETA " ++ format_duration (to_u64 (quotient left rate))
      else as_bytes "ETA --:--"

  abbrev pub rate_of : ℕ → ℕ → F64
  rate_of done elapsed = if ltb 0 elapsed then per_second done elapsed else zero_f64

  abbrev pub text_of : ℕ → ℕ → ℕ → Bool → List ℕ
  unfolding as_bytes human_size
  text_of done total elapsed finished =
      let rate = rate_of done elapsed in
      let total_size = human_size total in
      flush_right 3 (decimal (percent done total))
      ++ as_bytes "%  "
      ++ flush_right (length total_size) (human_size done)
      ++ as_bytes " / "
      ++ total_size
      ++ as_bytes "  "
      ++ flush_right 10 (human_size (to_u64 rate))
      ++ as_bytes "/s  "
      ++ flush_left 12 (time_text (total - done) rate finished (elapsed / 1000000000))

  -- `elapsed` in nanoseconds.
  unfoldable pub render : ℕ → ℕ → ℕ → Bool → ℕ → List ℕ
  unfolding human_size trim_blanks as_bytes to_string
  render done total elapsed finished width =
      let done' = min done total in fitted width done' total (text_of done' total elapsed finished)
