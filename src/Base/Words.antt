-- ===== src/Base/Words.antt =====
-- Operations of Rust's `str` on texts.
pub mod Laws
use Prim.Native.Char.{Char, code}
use Prim.Native.Nat.{ℕ, ◌+◌}
use Prim.Native.String.{String}
use mathlib.Core.Bool.{Bool, true, false, ◌&&◌, ◌||◌}
use mathlib.Core.Option.{Option, none, some}
use mathlib.Core.List.{List, [], ◌∷◌}
use coffer_fs.Base.Tests.{leb, ◌==◌, if◌then◌else◌}

abbrev pub within : ℕ → ℕ → ℕ → Bool
within low high n = leb low n && leb n high

-- `char::is_whitespace`: the White_Space property.
unfoldable pub is_whitespace : Char → Bool
is_whitespace c =
    within 9 13 (code c)
    || code c == 32
    || code c == 0x85
    || code c == 0xa0
    || code c == 0x1680
    || within 0x2000 0x200a (code c)
    || within 0x2028 0x2029 (code c)
    || code c == 0x202f
    || code c == 0x205f
    || code c == 0x3000

unfoldable pub trim_start : String → String
unfolding is_whitespace
trim_start String.[] = String.[]
trim_start (String.◌∷◌ c s) =
    let rest = trim_start s in if is_whitespace c then rest else String.◌∷◌ c s

abbrev before_trimmed : Char → String → String
before_trimmed c String.[] = if is_whitespace c then String.[] else String.◌∷◌ c String.[]
before_trimmed c (String.◌∷◌ d t) = String.◌∷◌ c (String.◌∷◌ d t)

unfoldable pub trim_end : String → String
unfolding is_whitespace
trim_end String.[] = String.[]
trim_end (String.◌∷◌ c s) = before_trimmed c (trim_end s)

unfoldable pub trim : String → String
unfolding trim_start trim_end
trim s = trim_end (trim_start s)

abbrev pub is_empty : String → Bool
is_empty String.[] = true
is_empty (String.◌∷◌ c s) = false

abbrev pub starts_with : ℕ → String → Bool
starts_with n String.[] = false
starts_with n (String.◌∷◌ c s) = code c == n

unfoldable pub ends_with : ℕ → String → Bool
ends_with n String.[] = false
ends_with n (String.◌∷◌ c s) = let rest = ends_with n s in if is_empty s then code c == n else rest

-- The text without its last character.
unfoldable pub without_last : String → String
without_last String.[] = String.[]
without_last (String.◌∷◌ c s) =
    let rest = without_last s in if is_empty s then String.[] else String.◌∷◌ c rest

abbrev pub without_first : String → String
without_first String.[] = String.[]
without_first (String.◌∷◌ c s) = s

unfoldable pub all_chars : (Char → Bool) → String → Bool
all_chars p String.[] = true
all_chars p (String.◌∷◌ c s) = p c && all_chars p s

-- The code of `to_ascii_lowercase`.
abbrev pub lower : ℕ → ℕ
lower n = if within 65 90 n then n + 32 else n

-- Whether the text is this word, when in lower case.
unfoldable pub is_word : String → String → Bool
is_word String.[] String.[] = true
is_word String.[] (String.◌∷◌ d t) = false
is_word (String.◌∷◌ c s) String.[] = false
is_word (String.◌∷◌ c s) (String.◌∷◌ d t) = lower (code c) == code d && is_word s t

abbrev onto_first : Char → Option (String × String) → Option (String × String)
onto_first c none = none
onto_first c (some (a, b)) = some (String.◌∷◌ c a, b)

unfoldable pub split_once : ℕ → String → Option (String × String)
split_once n String.[] = none
split_once n (String.◌∷◌ c s) =
    let rest = onto_first c (split_once n s) in if code c == n then some (String.[], s) else rest

abbrev onto_line : Char → List String → List String
onto_line c [] = String.◌∷◌ c String.[] ∷ []
onto_line c (l ∷ ls) = String.◌∷◌ c l ∷ ls

-- A line ends at LF or CR LF; the last one may have no end.
unfoldable pub lines : String → List String
lines String.[] = []
lines (String.◌∷◌ c s) =
    let rest = lines s in
    if code c == 10
    then String.[] ∷ rest
    else if code c == 13 && starts_with 10 s
    then rest
    else onto_line c rest

-- `str::strip_prefix`
unfoldable pub strip_prefix : String → String → Option String
strip_prefix String.[] s = some s
strip_prefix (String.◌∷◌ d p) String.[] = none
strip_prefix (String.◌∷◌ d p) (String.◌∷◌ c s) =
    let rest = strip_prefix p s in if code c == code d then rest else none

-- `str::split` at a character.
unfoldable pub split_on : ℕ → String → List String
split_on n String.[] = String.[] ∷ []
split_on n (String.◌∷◌ c s) =
    let rest = split_on n s in if code c == n then String.[] ∷ rest else onto_line c rest

abbrev after_prefix : Char → Option String → Option (String × String) → Option (String × String)
after_prefix c none rest = onto_first c rest
after_prefix c (some s) rest = some (String.[], s)

-- `str::split_once` at a text that is not empty.
unfoldable pub split_text : String → String → Option (String × String)
unfolding strip_prefix
split_text p String.[] = none
split_text p (String.◌∷◌ c s) = after_prefix c (strip_prefix p (String.◌∷◌ c s)) (split_text p s)

abbrev first_part : String → Option (String × String) → String
first_part s none = s
first_part s (some (a, b)) = a

abbrev second_part : String → Option (String × String) → Option String
second_part p none = none
second_part p (some (a, b)) = some (first_part b (split_text p b))

-- `s.split(p).nth(1)`
unfoldable pub split_second : String → String → Option String
unfolding split_text
split_second p s = second_part p (split_text p s)

unfoldable pub split_where : (Char → Bool) → String → List String
split_where p String.[] = String.[] ∷ []
split_where p (String.◌∷◌ c s) =
    let rest = split_where p s in if p c then String.[] ∷ rest else onto_line c rest

abbrev last_filled : Option String → List String → Option String
last_filled found [] = found
last_filled found (w ∷ ws) = last_filled (if is_empty w then found else some w) ws

-- `split_whitespace().last()`
unfoldable pub last_word : String → Option String
unfolding split_where is_whitespace
last_word s = last_filled none (split_where is_whitespace s)
