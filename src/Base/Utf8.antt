-- ===== src/Base/Utf8.antt =====
-- `std::str::from_utf8`, as far as it tells whether bytes are a text.
use Prim.Native.Char.{Char, char, code}
use Prim.Native.Nat.{ℕ, zero, suc, ◌<◌}
use Prim.Native.String.{String}
use mathlib.Core.Path.{◌≡◌, refl, ◌∙◌}
use mathlib.Core.Logic.{◌⊎◌}
use mathlib.Core.Bool.{Bool, true, ◌&&◌, ◌||◌}
use mathlib.Core.List.{List, [], ◌∷◌, ◌++◌}
use native.Mathlib.Omega.{arith}
use coffer_fs.Base.Tests.{ltb, leb, ◌==◌, if◌then◌else◌}
use coffer_fs.Base.Text.{encode, as_bytes}

abbrev between : ℕ → ℕ → ℕ → Bool
between lo hi b = leb lo b && leb b hi

abbrev starts_char : ℕ → Bool
starts_char b = ltb b 0x80 || between 0xc2 0xf4 b

-- How many bytes follow a first byte, and the range of the next one: no overlong form, no
-- surrogate, nothing past U+10FFFF.
abbrev followers : ℕ → ℕ
followers b = if ltb b 0x80 then 0 else if ltb b 0xe0 then 1 else if ltb b 0xf0 then 2 else 3

abbrev lower_end : ℕ → ℕ
lower_end b = if b == 0xe0 then 0xa0 else if b == 0xf0 then 0x90 else 0x80

abbrev upper_end : ℕ → ℕ
upper_end b = if b == 0xed then 0x9f else if b == 0xf4 then 0x8f else 0xbf

-- `k` more bytes of a character are to come, the next one from `lo` to `hi`.
unfoldable pub utf8_from : ℕ → ℕ → ℕ → List ℕ → Bool
utf8_from k lo hi [] = k == 0
utf8_from zero lo hi (b ∷ bs) =
    starts_char b && utf8_from (followers b) (lower_end b) (upper_end b) bs
utf8_from (suc k) lo hi (b ∷ bs) = between lo hi b && utf8_from k 0x80 0xbf bs

unfoldable pub is_utf8 : List ℕ → Bool
unfolding utf8_from
is_utf8 bs = utf8_from 0 0x80 0xbf bs

-- What a character's number is.
abbrev Scalar : ℕ → Type 0
Scalar n = (n < 0xd800) ⊎ ((0xdfff < n) × (n < 0x110000))

code-Scalar : (c : Char) → Scalar (code c)
code-Scalar (char n p) = ground arith

one_byte :
    (n : ℕ) (bs : List ℕ) → n < 0x80 → utf8_from 0 0x80 0xbf (n ∷ bs) ≡ utf8_from 0 0x80 0xbf bs
unfolding utf8_from
one_byte n bs h = ground arith

utf8_from-encode :
    (n : ℕ) (bs : List ℕ)
    → Scalar n
    → utf8_from 0 0x80 0xbf (encode n ++ bs) ≡ utf8_from 0 0x80 0xbf bs
unfolding utf8_from encode
utf8_from-encode n bs h = ground arith

pub is_utf8-as_bytes : (s : String) → is_utf8 (as_bytes s) ≡ true
unfolding is_utf8 as_bytes
is_utf8-as_bytes String.[] = refl
is_utf8-as_bytes (String.◌∷◌ c s) =
    utf8_from-encode (code c) (as_bytes s) (code-Scalar c) ∙ is_utf8-as_bytes s
