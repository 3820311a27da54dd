-- ===== src/Base/Words/Laws.antt =====
-- Laws of the operations on texts.
use Prim.Native.Char.{Char, char, code}
use Prim.Native.Nat.{ℕ}
use Prim.Native.String.{String, ◌++◌}
use Prim.Native.String.append
use mathlib.Core.Path.{◌≡◌, refl, ap, sym, ◌∙◌}
use mathlib.Core.Logic.{inl, inr}
use mathlib.Core.Bool.{Bool, true, false, not, ◌&&◌}
use mathlib.Core.Option.{none, some, some-injective}
use mathlib.Core.List.{[], ◌∷◌}
use native.Mathlib.Omega.{arith}
use text.Mathlib.Text.{◌==◌ as str_eq}
use text.Mathlib.TextEquality.{eq_iff, Char-path}
use text.Mathlib.TextLemmas.{head-eq_of_cons-eq}
use coffer_fs.Base.Tests.{◌==◌, ==_refl, ==_iff, Bool-cases}
use coffer_fs.Base.Words.{
  is_whitespace, trim_end, before_trimmed, is_empty, all_chars, split_once, lines, strip_prefix,
}

pub strip_prefix-append : (p s : String) → strip_prefix p (p ++ s) ≡ some s
unfolding strip_prefix
strip_prefix-append String.[] s = rw (append.nil s) refl
strip_prefix-append (String.◌∷◌ c p) s =
    rw (append.cons c p s, ==_refl (code c)) (strip_prefix-append p s)

pub strip_prefix_sound : (p s rest : String) → strip_prefix p s ≡ some rest → s ≡ p ++ rest
unfolding strip_prefix
strip_prefix_sound String.[] s rest h = some-injective _ _ h ∙ sym (append.nil rest)
strip_prefix_sound (String.◌∷◌ d p) String.[] rest h = cc
strip_prefix_sound (String.◌∷◌ d p) (String.◌∷◌ c s) rest h = elim (Bool-cases (code c == code d)) [
  | inl e ↦
      (let k : strip_prefix p s ≡ some rest = rw e at h in
        let same : c ≡ d = Char-path c d ((==_iff (code c) (code d)).0 e) in
        ap (λ x. String.◌∷◌ x s) same
        ∙ ap (λ x. String.◌∷◌ d x) (strip_prefix_sound p s rest k)
        ∙ sym (append.cons d p rest))
  | inr e ↦ absurd (ground (arith, (rw e at h)))
]

pub strip_prefix-cons_other :
    (d c : Char) (p s t : String)
    → (code c == code d) ≡ false
    → strip_prefix (String.◌∷◌ d p) (String.◌∷◌ c s ++ t) ≡ none
unfolding strip_prefix
strip_prefix-cons_other d c p s t h = rw (append.cons c s t, h) refl

pub str_eq-cons_other :
    (c d : Char) (s t u : String)
    → (code c == code d) ≡ false
    → str_eq (String.◌∷◌ c s ++ t) (String.◌∷◌ d u) ≡ false
str_eq-cons_other c d s t u h = elim (Bool-cases (str_eq (String.◌∷◌ c s ++ t) (String.◌∷◌ d u))) [
  | inl e ↦
      (let k = head-eq_of_cons-eq (sym (append.cons c s t) ∙ (eq_iff _ _).0 e) in
        absurd (ground (arith, ==_iff (code c) (code d), ap code k)))
  | inr e ↦ e
]

-- A character that does not end a line.
abbrev pub inside : Char → Bool
inside c = not (code c == 10) && not (code c == 13)

pub lines-append :
    (l t : String) → all_chars inside l ≡ true → lines (l ++ ("\n" ++ t)) ≡ l ∷ lines t
unfolding lines all_chars
lines-append String.[] t h =
    rw (append.nil ("\n" ++ t), append.cons (char 10 tt) "" t, append.nil t) refl
lines-append (String.◌∷◌ c l) t h =
    let k : (inside c ≡ true) × (all_chars inside l ≡ true) = ground arith in
    let a : (code c == 10) ≡ false = ground (arith, k.0) in
    let b : (code c == 13) ≡ false = ground (arith, k.0) in
    rw (append.cons c l ("\n" ++ t), a, b, lines-append l t k.1) refl

-- A last line, with its end.
pub lines-last : (l : String) → all_chars inside l ≡ true → lines (l ++ "\n") ≡ l ∷ []
unfolding lines
lines-last l h = lines-append l "" h

pub is_empty-append : (s t : String) → is_empty t ≡ false → is_empty (s ++ t) ≡ false
is_empty-append String.[] t h = rw (append.nil t) h
is_empty-append (String.◌∷◌ c s) t h = rw (append.cons c s t) refl

before_trimmed-nonempty :
    (c : Char) (s : String) → is_empty s ≡ false → before_trimmed c s ≡ String.◌∷◌ c s
before_trimmed-nonempty c String.[] h = cc
before_trimmed-nonempty c (String.◌∷◌ d s) h = refl

-- What ends in a text that has nothing to trim has nothing to trim.
pub trim_end-append :
    (s t : String) → trim_end t ≡ t → is_empty t ≡ false → trim_end (s ++ t) ≡ s ++ t
unfolding trim_end
trim_end-append String.[] t h k = rw (append.nil t) h
trim_end-append (String.◌∷◌ c s) t h k =
    rw (append.cons c s t, trim_end-append s t h k)
      (before_trimmed-nonempty c (s ++ t) (is_empty-append s t k))

pub trim_end_none : (s : String) → all_chars (λ c. not (is_whitespace c)) s ≡ true → trim_end s ≡ s
unfolding trim_end all_chars
trim_end_none String.[] h = refl
trim_end_none (String.◌∷◌ c s) h =
    let k : (is_whitespace c ≡ false) × (all_chars (λ c. not (is_whitespace c)) s ≡ true) =
      ground arith in
    rw (trim_end_none s k.1) (whole c s k.0)
  where
    whole : (c : Char) (s : String) → is_whitespace c ≡ false → before_trimmed c s ≡ String.◌∷◌ c s
    whole c String.[] h = rw h refl
    whole c (String.◌∷◌ d s) h = refl

pub split_once-append :
    (n : ℕ) (d : Char) (s t : String)
    → code d ≡ n
    → all_chars (λ c. not (code c == n)) s ≡ true
    → split_once n (s ++ String.◌∷◌ d t) ≡ some (s, t)
unfolding split_once all_chars
split_once-append n d String.[] t e h = rw (append.nil (String.◌∷◌ d t), e, ==_refl n) refl
split_once-append n d (String.◌∷◌ c s) t e h =
    let k : ((code c == n) ≡ false) × (all_chars (λ c. not (code c == n)) s ≡ true) =
      ground arith in
    rw (append.cons c s (String.◌∷◌ d t), k.0, split_once-append n d s t e k.1) refl

pub all_chars-append :
    (p : Char → Bool) (s t : String)
    → all_chars p s ≡ true
    → all_chars p t ≡ true
    → all_chars p (s ++ t) ≡ true
unfolding all_chars
all_chars-append p String.[] t h k = rw (append.nil t) k
all_chars-append p (String.◌∷◌ c s) t h k =
    let l : (p c ≡ true) × (all_chars p s ≡ true) = ground arith in
    rw (append.cons c s t, l.0) (all_chars-append p s t l.1 k)

pub all_chars_mono :
    (p q : Char → Bool) (s : String)
    → ((c : Char) → p c ≡ true → q c ≡ true)
    → all_chars p s ≡ true
    → all_chars q s ≡ true
unfolding all_chars
all_chars_mono p q String.[] h k = refl
all_chars_mono p q (String.◌∷◌ c s) h k =
    let e : (p c ≡ true) × (all_chars p s ≡ true) = ground arith in
    rw (h c e.0) (all_chars_mono p q s h e.1)
