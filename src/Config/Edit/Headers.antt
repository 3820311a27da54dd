-- ===== src/Config/Edit/Headers.antt =====
-- src/config.rs: the header of a section.
use Prim.Native.Char.{Char, char}
use Prim.Native.String.{◌++◌ as append}
use Prim.Native.String.append
use text.Mathlib.TextLemmas.{append_assoc}
use coffer_fs.Base.{◌≡◌, refl, ap, ◌∙◌, sym, true, false, not, some, String, arith}
use coffer_fs.Base.Words.{
  trim, trim_start, trim_end, is_whitespace, ends_with, without_last, all_chars,
}
use coffer_fs.Base.Words.Laws.{
  inside, trim_end-append, trim_end_none, is_empty-append, all_chars-append, all_chars_mono,
}
use coffer_fs.Config.{validate_alias, ok_char, header_name}

abbrev pub bracketed : String → String
bracketed name = append "[" (append name "]")

-- The parts of a header.
ends_with-bracket : (s : String) → ends_with 93 (append s "]") ≡ true
unfolding ends_with
ends_with-bracket String.[] = refl
ends_with-bracket (String.◌∷◌ c s) =
    rw (append.cons c s "]", is_empty-append s "]" refl) (ends_with-bracket s)

without_last-bracket : (s : String) → without_last (append s "]") ≡ s
unfolding without_last
without_last-bracket String.[] = refl
without_last-bracket (String.◌∷◌ c s) =
    rw (append.cons c s "]", is_empty-append s "]" refl)
      (ap (λ t. String.◌∷◌ c t) (without_last-bracket s))

-- A name has no blanks.
no_blank : (c : Char) → ok_char c ≡ true → not (is_whitespace c) ≡ true
unfolding is_whitespace
no_blank c h = ground arith

inside_name : (c : Char) → ok_char c ≡ true → inside c ≡ true
inside_name c h = ground arith

trim_start-other :
    (c : Char) (s : String) → is_whitespace c ≡ false → trim_start (String.◌∷◌ c s) ≡ String.◌∷◌ c s
unfolding trim_start
trim_start-other c s h = rw h refl

-- `[` and the rest.
pub bracketed_lem :
    (name t : String) → append "[" (append name t) ≡ append (String.◌∷◌ (char 91 tt) name) t
bracketed_lem name t =
    append.cons (char 91 tt) "" (append name t)
    ∙ ap (λ u. String.◌∷◌ (char 91 tt) u) (append.nil (append name t))
    ∙ sym (append.cons (char 91 tt) name t)

trim-name : (name : String) → validate_alias name ≡ true → trim name ≡ name
unfolding trim trim_start validate_alias all_chars
trim-name String.[] h = cc
trim-name (String.◌∷◌ c s) h =
    let v : all_chars ok_char (String.◌∷◌ c s) ≡ true = ground (arith, h) in
    let w = all_chars_mono ok_char (λ d. not (is_whitespace d)) (String.◌∷◌ c s) no_blank v in
    let k : is_whitespace c ≡ false = ground (arith, w) in
    ap trim_end (trim_start-other c s k) ∙ trim_end_none (String.◌∷◌ c s) w

pub trim-bracketed : (name : String) → trim (bracketed name) ≡ bracketed name
unfolding trim trim_end is_whitespace
trim-bracketed name =
    let e = bracketed_lem name "]" in
    let start = append.cons (char 91 tt) name "]" in
    ap trim (e ∙ start)
    ∙ ap trim_end (trim_start-other (char 91 tt) (append name "]") refl)
    ∙ ap trim_end (sym start)
    ∙ trim_end-append (String.◌∷◌ (char 91 tt) name) "]" refl refl
    ∙ sym e

pub header_name-bracketed :
    (name : String) → validate_alias name ≡ true → header_name (bracketed name) ≡ some name
unfolding header_name trim
header_name-bracketed name v =
    let e = bracketed_lem name "]" ∙ append.cons (char 91 tt) name "]" in
    ap header_name e
    ∙ rw (ends_with-bracket name, without_last-bracket name) (ap some (trim-name name v))

pub inside-bracketed :
    (name : String) → validate_alias name ≡ true → all_chars inside (bracketed name) ≡ true
unfolding validate_alias all_chars
inside-bracketed name v =
    let w : all_chars ok_char name ≡ true = ground (arith, v) in
    all_chars-append inside "[" (append name "]") refl
      (all_chars-append inside name "]" (all_chars_mono ok_char inside name inside_name w) refl)

pub header_line :
    (name t : String)
    → append "[" (append name (append "]\n" t)) ≡ append (bracketed name) (append "\n" t)
header_line name t =
    let e : append "]\n" t ≡ append "]" (append "\n" t) = append_assoc "]" "\n" t in
    ap (λ u. append "[" (append name u)) e
    ∙ sym (
        append_assoc "[" (append name "]") (append "\n" t)
        ∙ ap (append "[") (append_assoc name "]" (append "\n" t)))
