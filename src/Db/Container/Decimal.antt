-- ===== src/Db/Container/Decimal.antt =====
-- `u64::to_string` and `str::parse::<u64>`, which src/db.rs uses for the settings in `meta`.
use Prim.Native.Char.{Char, char, code}
use coffer_fs.Base.{
  ℕ, zero, suc, ◌+◌, ◌-◌, ◌*◌, ◌/◌, ◌%◌, ◌<◌, ◌≤◌, ◌≡◌, refl, ap, ◌∙◌, sym, String, Bool, true,
  false, ◌&&◌, Option, none, some, arith, ltb, leb, ◌==◌, if◌then◌else◌, inl, inr, Bool-cases,
  ltb→lt, ltb→le,
}
use coffer_fs.Base.Words.{all_chars, is_empty}

abbrev pub u64_mod : ℕ
u64_mod = 18446744073709551616

unfoldable digit : ℕ → Char
digit d =
    if d == 0
    then char 48 tt
    else if d == 1
    then char 49 tt
    else if d == 2
    then char 50 tt
    else if d == 3
    then char 51 tt
    else if d == 4
    then char 52 tt
    else if d == 5
    then char 53 tt
    else if d == 6
    then char 54 tt
    else if d == 7
    then char 55 tt
    else if d == 8
    then char 56 tt
    else char 57 tt

-- The digits of `n` before `tail`.
unfoldable digits : ℕ → ℕ → String → String
digits zero n tail = tail
digits (suc fuel) n tail =
    let rest = digits fuel (n / 10) (String.◌∷◌ (digit (n % 10)) tail) in
    if ltb n 10 then String.◌∷◌ (digit n) tail else rest

unfoldable pub to_string : ℕ → String
unfolding digits digit
to_string n = digits (suc n) n String.[]

abbrev is_digit : Char → Bool
is_digit c = leb 48 (code c) && leb (code c) 57

-- The value of the digits to come, after `acc`: `None` at another character or past u64.
unfoldable value_from : ℕ → String → Option ℕ
value_from acc String.[] = some acc
value_from acc (String.◌∷◌ c s) =
    let next = acc * 10 + (code c - 48) in
    let rest = value_from next s in if is_digit c && ltb next u64_mod then rest else none

abbrev signed : Char → String → Option ℕ
signed c String.[] = value_from 0 (String.◌∷◌ c String.[])
signed c (String.◌∷◌ d s) =
    if code c == 43
    then value_from 0 (String.◌∷◌ d s)
    else value_from 0 (String.◌∷◌ c (String.◌∷◌ d s))

-- A leading `+` is allowed where digits follow.
unfoldable pub parse_u64 : String → Option ℕ
unfolding value_from
parse_u64 String.[] = none
parse_u64 (String.◌∷◌ c s) = signed c s

digit-code : (d : ℕ) → d < 10 → code (digit d) ≡ 48 + d
unfolding digit
digit-code zero h = refl
digit-code (suc zero) h = refl
digit-code (suc (suc zero)) h = refl
digit-code (suc (suc (suc zero))) h = refl
digit-code (suc (suc (suc (suc zero)))) h = refl
digit-code (suc (suc (suc (suc (suc zero))))) h = refl
digit-code (suc (suc (suc (suc (suc (suc zero)))))) h = refl
digit-code (suc (suc (suc (suc (suc (suc (suc zero))))))) h = refl
digit-code (suc (suc (suc (suc (suc (suc (suc (suc zero)))))))) h = refl
digit-code (suc (suc (suc (suc (suc (suc (suc (suc (suc zero))))))))) h = refl
digit-code (suc (suc (suc (suc (suc (suc (suc (suc (suc (suc d)))))))))) h = absurd (omega arith)

value_from-digit :
    (acc d : ℕ) (s : String)
    → d < 10
    → acc * 10 + d < u64_mod
    → value_from acc (String.◌∷◌ (digit d) s) ≡ value_from (acc * 10 + d) s
unfolding value_from
value_from-digit acc d s h k = rw (digit-code d h, sub, low, high, small) refl
  where
    sub : 48 + d - 48 ≡ d
    sub = omega arith

    low : leb 48 (48 + d) ≡ true
    low = ground arith

    high : leb (48 + d) 57 ≡ true
    high = ground arith

    small : ltb (acc * 10 + d) u64_mod ≡ true
    small = ground arith

value_from-digits :
    (fuel n : ℕ) (tail : String)
    → n < fuel
    → n < u64_mod
    → value_from 0 (digits fuel n tail) ≡ value_from n tail
unfolding digits
value_from-digits zero n tail f h = absurd (omega arith)
value_from-digits (suc fuel) n tail f h = elim (Bool-cases (ltb n 10)) [
  | inl e ↦ rw e (
      value_from-digit 0 n tail (ltb→lt n 10 e) (omega arith)
      ∙ ap (λ k. value_from k tail) (omega arith))
  | inr e ↦ rw e (
      value_from-digits fuel (n / 10) (String.◌∷◌ (digit (n % 10)) tail)
        (omega (arith, ltb→le n 10 e)) (omega arith)
      ∙ value_from-digit (n / 10) (n % 10) tail (omega arith) (omega arith)
      ∙ ap (λ k. value_from k tail) (omega arith))
]

-- A text whose first character is a digit of a number.
abbrev Starts : String → Type 0
Starts s = (d : ℕ) × (t : String) × (d < 10) × (s ≡ String.◌∷◌ (digit d) t)

Starts-digits : (fuel n : ℕ) (tail : String) → Starts tail → Starts (digits fuel n tail)
unfolding digits
Starts-digits zero n tail h = h
Starts-digits (suc fuel) n tail h = elim (Bool-cases (ltb n 10)) [
  | inl e ↦ rw e (n, tail, ltb→lt n 10 e, refl)
  | inr e ↦ rw e (
      Starts-digits fuel (n / 10) (String.◌∷◌ (digit (n % 10)) tail)
        (n % 10, tail, omega arith, refl))
]

Starts-to_string : (n : ℕ) → Starts (to_string n)
unfolding to_string
Starts-to_string n = elim (Bool-cases (ltb n 10)) [
  | inl e ↦ rw (e, to_string) (n, String.[], ltb→lt n 10 e, refl)
  | inr e ↦
      rw (e, to_string)
        (Starts-digits n (n / 10) (String.◌∷◌ (digit (n % 10)) String.[])
          (n % 10, String.[], omega arith, refl))
]

unsigned :
    (d : ℕ) (t : String)
    → d < 10
    → parse_u64 (String.◌∷◌ (digit d) t) ≡ value_from 0 (String.◌∷◌ (digit d) t)
unfolding parse_u64
unsigned d String.[] h = refl
unsigned d (String.◌∷◌ c t) h = rw (digit-code d h, (not_plus d h)) refl
  where
    not_plus : (d : ℕ) → d < 10 → (48 + d == 43) ≡ false
    not_plus d h = ground arith

digits-all_chars :
    (p : Char → Bool) (fuel n : ℕ) (tail : String)
    → ((d : ℕ) → d < 10 → p (digit d) ≡ true)
    → all_chars p tail ≡ true
    → all_chars p (digits fuel n tail) ≡ true
unfolding digits all_chars
digits-all_chars p zero n tail h t = t
digits-all_chars p (suc fuel) n tail h t = elim (Bool-cases (ltb n 10)) [
  | inl e ↦ rw (e, h n (ltb→lt n 10 e)) t
  | inr e ↦ rw e (
      digits-all_chars p fuel (n / 10) (String.◌∷◌ (digit (n % 10)) tail) h
        (rw (h (n % 10) (omega arith)) t))
]

-- A number is printed in characters from '0' to '9', at least one.
pub to_string-all_chars :
    (p : Char → Bool) (n : ℕ)
    → ((c : Char) → 48 ≤ code c → code c ≤ 57 → p c ≡ true)
    → all_chars p (to_string n) ≡ true
unfolding to_string all_chars
to_string-all_chars p n h =
    digits-all_chars p (suc n) n String.[]
      (λ d k. h (digit d) (omega (arith, digit-code d k)) (omega (arith, digit-code d k))) refl

pub is_empty-to_string : (n : ℕ) → is_empty (to_string n) ≡ false
is_empty-to_string n = let (d, t, k, e) = Starts-to_string n in ap is_empty e

-- A u64 that is printed is read back.
pub parse_u64-to_string : (n : ℕ) → n < u64_mod → parse_u64 (to_string n) ≡ some n
unfolding to_string value_from
parse_u64-to_string n h = read (Starts-to_string n)
  where
    read : Starts (to_string n) → parse_u64 (to_string n) ≡ some n
    read (d, t, k, e) =
        ap parse_u64 e
        ∙ unsigned d t k
        ∙ ap (value_from 0) (sym e)
        ∙ value_from-digits (suc n) n String.[] (omega arith) h
        ∙ refl
