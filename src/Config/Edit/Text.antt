-- ===== src/Config/Edit/Text.antt =====
-- src/config.rs: the text that is written is read back.
use Prim.Native.Char.{char}
use Prim.Native.String.{len}
use Prim.Native.String.append
use mathlib.Core.List.{append_assoc as list_assoc, append-nil}
use coffer_fs.Base.{
  ℕ, zero, suc, ◌≡◌, refl, ap, ◌∙◌, sym, true, false, some, String, List, [], ◌∷◌, ◌++◌, ok, All,
  inl, inr, Bool-cases,
}
use coffer_fs.Base.Words.{trim, starts_with, ends_with, without_last, all_chars, lines}
use coffer_fs.Base.Words.Laws.{inside, lines-append}
use coffer_fs.Config.{
  Section, Config, has_section, validate_alias, push_to_last, push_line, header_name, parse_line,
  then_parse, parse_lines, parse,
}
use coffer_fs.Config.Edit.Headers.{
  bracketed, trim-bracketed, header_name-bracketed, inside-bracketed, header_line, bracketed_lem,
}
use coffer_fs.Config.Edit.{unlines, section_lines, drop_newlines, to_text}

-- A line that is not taken for a header, and does not end before its end.
abbrev pub IsLine : String → Type 0
IsLine l = (starts_with 91 (trim l) ≡ false) × (all_chars inside l ≡ true)

unfoldable written_lines : List Section → List String
written_lines [] = []
written_lines (s ∷ ss) = bracketed s.name ∷ s.content ++ written_lines ss

push_to_last-last :
    (raw : String) (s t : Section) (ss : List Section)
    → push_to_last raw t (ss ++ (s ∷ []))
      ≡ t ∷ ss ++ (record s { content = s.content ++ (raw ∷ []) } ∷ [])
unfolding push_to_last
push_to_last-last raw s t [] = refl
push_to_last-last raw s t (u ∷ ss) = ap (λ l. t ∷ l) (push_to_last-last raw s u ss)

push_line-last :
    (raw : String) (s : Section) (preamble : List String) (ss : List Section)
    → push_line raw (record { preamble = preamble; sections = ss ++ (s ∷ []) }) ≡ record {
      preamble = preamble;
      sections = ss ++ (record s { content = s.content ++ (raw ∷ []) } ∷ []);
    }
unfolding push_line push_to_last
push_line-last raw s preamble [] = refl
push_line-last raw s preamble (t ∷ ss) =
    ap (λ l. record { preamble = preamble; sections = l }) (push_to_last-last raw s t ss)

parse_line-plain :
    (raw : String) (cfg : Config) → IsLine raw → parse_line raw cfg ≡ ok (push_line raw cfg)
unfolding parse_line
parse_line-plain raw cfg h = rw (h.0) refl

parse_lines-preamble :
    (ls rest preamble : List String)
    → All IsLine ls
    → parse_lines (ls ++ rest) (record { preamble = preamble; sections = [] })
      ≡ parse_lines rest (record { preamble = preamble ++ ls; sections = [] })
unfolding parse_lines push_line
parse_lines-preamble [] rest preamble h =
    ap (λ p. parse_lines rest (record { preamble = p; sections = [] })) (sym (append-nil preamble))
parse_lines-preamble (l ∷ ls) rest preamble h =
    ap (λ r. then_parse r (parse_lines (ls ++ rest)))
      (parse_line-plain l (record { preamble = preamble; sections = [] }) h.0)
    ∙ parse_lines-preamble ls rest (preamble ++ (l ∷ [])) h.1
    ∙ ap (λ p. parse_lines rest (record { preamble = p; sections = [] }))
        (list_assoc preamble (l ∷ []) ls)

parse_lines-content :
    (ls rest preamble : List String) (s : Section) (ss : List Section)
    → All IsLine ls
    → parse_lines (ls ++ rest) (record { preamble = preamble; sections = ss ++ (s ∷ []) })
      ≡ parse_lines rest (record {
        preamble = preamble;
        sections = ss ++ (record s { content = s.content ++ ls } ∷ []);
      })
unfolding parse_lines
parse_lines-content [] rest preamble s ss h =
    ap
      (λ c.
        parse_lines rest
          (record { preamble = preamble; sections = ss ++ (record s { content = c } ∷ []) }))
      (sym (append-nil s.content))
parse_lines-content (l ∷ ls) rest preamble s ss h =
    ap (λ r. then_parse r (parse_lines (ls ++ rest)))
      (parse_line-plain l _ h.0 ∙ ap ok (push_line-last l s preamble ss))
    ∙ parse_lines-content ls rest preamble (record s { content = s.content ++ (l ∷ []) }) ss h.1
    ∙ ap
        (λ c.
          parse_lines rest
            (record { preamble = preamble; sections = ss ++ (record s { content = c } ∷ []) }))
        (list_assoc s.content (l ∷ []) ls)

parse_line-bracketed :
    (name : String) (preamble : List String) (ss : List Section)
    → validate_alias name ≡ true
    → has_section name ss ≡ false
    → parse_line (bracketed name) (record { preamble = preamble; sections = ss })
      ≡ ok (record {
        preamble = preamble;
        sections = ss ++ (record { name = name; content = [] } ∷ []);
      })
unfolding parse_line
parse_line-bracketed name preamble ss v n =
    let e = bracketed_lem name "]" ∙ append.cons (char 91 tt) name "]" in
    let b : starts_with 91 (trim (bracketed name)) ≡ true =
      ap (starts_with 91) (trim-bracketed name ∙ e) in
    let h : header_name (trim (bracketed name)) ≡ some name =
      ap header_name (trim-bracketed name) ∙ header_name-bracketed name v in
    rw (b, h, v, n) refl

-- Valid names, each other than those before, over lines that are lines.
abbrev pub IsWritten : List Section → List Section → Type 0
IsWritten before [] = Unit
IsWritten before (s ∷ ss) =
    (validate_alias s.name ≡ true)
    × (has_section s.name before ≡ false)
    × All IsLine s.content
    × IsWritten (before ++ (s ∷ [])) ss

parse_lines-written_lines :
    (ss before : List Section) (preamble : List String)
    → IsWritten before ss
    → parse_lines (written_lines ss) (record { preamble = preamble; sections = before })
      ≡ ok (record { preamble = preamble; sections = before ++ ss })
unfolding parse_lines written_lines
parse_lines-written_lines [] before preamble w =
    ap (λ l. ok (record { preamble = preamble; sections = l })) (sym (append-nil before))
parse_lines-written_lines (s ∷ ss) before preamble (v, n, c, w) =
    ap (λ r. then_parse r (parse_lines (s.content ++ written_lines ss)))
      (parse_line-bracketed s.name preamble before v n)
    ∙ parse_lines-content s.content (written_lines ss) preamble
        (record { name = s.name; content = [] }) before c
    ∙ parse_lines-written_lines ss (before ++ (s ∷ [])) preamble w
    ∙ ap (λ l. ok (record { preamble = preamble; sections = l })) (list_assoc before (s ∷ []) ss)

lines-unlines :
    (ls : List String) (tail : String) → All IsLine ls → lines (unlines ls tail) ≡ ls ++ lines tail
unfolding unlines
lines-unlines [] tail h = refl
lines-unlines (l ∷ ls) tail h =
    lines-append l (unlines ls tail) h.0.1 ∙ ap (λ r. l ∷ r) (lines-unlines ls tail h.1)

lines-section_lines :
    (ss before : List Section) → IsWritten before ss → lines (section_lines ss) ≡ written_lines ss
unfolding section_lines written_lines lines
lines-section_lines [] before w = refl
lines-section_lines (s ∷ ss) before (v, n, c, w) =
    ap lines (header_line s.name (unlines s.content (section_lines ss)))
    ∙ lines-append (bracketed s.name) (unlines s.content (section_lines ss))
        (inside-bracketed s.name v)
    ∙ ap (λ r. bracketed s.name ∷ r)
        (lines-unlines s.content (section_lines ss) c
          ∙ ap (λ r. s.content ++ r) (lines-section_lines ss (before ++ (s ∷ [])) w))

-- The text before blank lines are dropped at its end.
abbrev pub whole_text : Config → String
whole_text cfg = unlines cfg.preamble (section_lines cfg.sections)

drop_newlines_none :
    (fuel : ℕ) (out : String)
    → ends_with 10 (without_last out) ≡ false
    → drop_newlines fuel out ≡ out
unfolding drop_newlines
drop_newlines_none zero out h = refl
drop_newlines_none (suc fuel) out h = elim (Bool-cases (ends_with 10 out)) [
  | inl e ↦ rw (e, h) refl
  | inr e ↦ rw e refl
]

-- A registry with valid names, each once, in which no other line looks like a header and no line holds
-- an end of line, is read back as it was from the text that is written for it, comments and blank
-- lines included, where that text does not end in a blank line, which would be dropped.
pub parse-to_text :
    (cfg : Config)
    → All IsLine cfg.preamble
    → IsWritten [] cfg.sections
    → ends_with 10 (without_last (whole_text cfg)) ≡ false
    → parse (to_text cfg) ≡ ok cfg
unfolding parse to_text
parse-to_text cfg p w t =
    ap parse (drop_newlines_none (len (whole_text cfg)) (whole_text cfg) t)
    ∙ ap (λ ls. parse_lines ls (record { preamble = []; sections = [] }))
        (lines-unlines cfg.preamble (section_lines cfg.sections) p
          ∙ ap (λ r. cfg.preamble ++ r) (lines-section_lines cfg.sections [] w))
    ∙ parse_lines-preamble cfg.preamble (written_lines cfg.sections) [] p
    ∙ parse_lines-written_lines cfg.sections [] cfg.preamble w
