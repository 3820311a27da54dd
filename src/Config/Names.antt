-- ===== src/Config/Names.antt =====
-- src/config.rs: what `parse` lets through has valid names, each once.
use coffer_fs.Base.{
  ◌≡◌, refl, ap, ◌∙◌, sym, String, true, false, ◌||◌, Option, none, some, List, [], ◌∷◌, ◌++◌,
  Result, ok, err, arith, str_eq, eq_iff, inl, inr, Bool-cases,
}
use coffer_fs.Base.Words.{trim, starts_with, lines}
use coffer_fs.Config.{
  Section, Config, ConfigError, has_section, validate_alias, push_to_last, pushed, push_line,
  header_name, open_section, parse_line, then_parse, parse_lines, parse,
}

-- Valid names, and no later section with the name of an earlier one.
abbrev pub IsListed : List Section → Type 0
IsListed [] = Unit
IsListed (s ∷ ss) = (validate_alias s.name ≡ true) × (has_section s.name ss ≡ false) × IsListed ss

abbrev Accepted : Result ConfigError Config → Type 0
Accepted (ok cfg) = IsListed cfg.sections
Accepted (err e) = Unit

has_section-append :
    (n : String) (ss : List Section) (new : Section)
    → has_section n (ss ++ (new ∷ [])) ≡ (has_section n ss || str_eq new.name n)
unfolding has_section
has_section-append n [] new = ground arith
has_section-append n (s ∷ ss) new = ground (arith, has_section-append n ss new)

unequal_sym : (s t : String) → str_eq s t ≡ false → str_eq t s ≡ false
unequal_sym s t h = elim (Bool-cases (str_eq t s)) [
  | inl e ↦ absurd (ground (arith, (eq_iff s t).1 (sym ((eq_iff t s).0 e))))
  | inr e ↦ e
]

-- A name that is not in the list differs from each.
not_there :
    (s new : Section) (ss : List Section)
    → has_section new.name (s ∷ ss) ≡ false
    → (str_eq new.name s.name ≡ false) × (has_section new.name ss ≡ false)
unfolding has_section
not_there s new ss h = (unequal_sym s.name new.name (ground arith), ground arith)

IsListed-append :
    (ss : List Section) (new : Section)
    → validate_alias new.name ≡ true
    → has_section new.name ss ≡ false
    → IsListed ss
    → IsListed (ss ++ (new ∷ []))
unfolding has_section
IsListed-append [] new v h l = (v, refl, tt)
IsListed-append (s ∷ ss) new v h l =
    let k = not_there s new ss h in
    (l.0, has_section-append s.name ss new ∙ rw (l.1, k.0) refl, IsListed-append ss new v k.1 l.2)

has_section-push :
    (raw n : String) (s : Section) (ss : List Section)
    → has_section n (push_to_last raw s ss) ≡ has_section n (s ∷ ss)
unfolding has_section push_to_last
has_section-push raw n s [] = refl
has_section-push raw n s (t ∷ ts) = ap (λ b. str_eq s.name n || b) (has_section-push raw n t ts)

IsListed-push :
    (raw : String) (s : Section) (ss : List Section)
    → IsListed (s ∷ ss)
    → IsListed (push_to_last raw s ss)
unfolding push_to_last has_section
IsListed-push raw s [] l = l
IsListed-push raw s (t ∷ ts) l =
    (l.0, has_section-push raw s.name t ts ∙ l.1, IsListed-push raw t ts l.2)

push_line-IsListed :
    (raw : String) (preamble : List String) (ss : List Section)
    → IsListed ss
    → IsListed (pushed raw preamble ss).sections
push_line-IsListed raw preamble [] l = tt
push_line-IsListed raw preamble (s ∷ ss) l = IsListed-push raw s ss l

open_section-Accepted :
    (cfg : Config) (o : Option String) → IsListed cfg.sections → Accepted (open_section cfg o)
open_section-Accepted cfg none l = tt
open_section-Accepted cfg (some name) l = elim (Bool-cases (validate_alias name)) [
  | inr v ↦ rw v tt
  | inl v ↦ elim (Bool-cases (has_section name cfg.sections)) [
    | inl h ↦ rw (v, h) tt
    | inr h ↦ rw (v, h) (IsListed-append cfg.sections (record { name = name; content = [] }) v h l)
  ]
]

parse_line-Accepted :
    (raw : String) (cfg : Config) → IsListed cfg.sections → Accepted (parse_line raw cfg)
unfolding parse_line push_line
parse_line-Accepted raw cfg l = elim (Bool-cases (starts_with 91 (trim raw))) [
  | inl e ↦ rw e (open_section-Accepted cfg (header_name (trim raw)) l)
  | inr e ↦ rw e (push_line-IsListed raw cfg.preamble cfg.sections l)
]

then_parse-Accepted :
    (r : Result ConfigError Config) (f : Config → Result ConfigError Config)
    → Accepted r
    → ((cfg : Config) → IsListed cfg.sections → Accepted (f cfg))
    → Accepted (then_parse r f)
then_parse-Accepted (ok cfg) f l h = h cfg l
then_parse-Accepted (err e) f l h = tt

parse_lines-Accepted :
    (raws : List String) (cfg : Config) → IsListed cfg.sections → Accepted (parse_lines raws cfg)
unfolding parse_lines
parse_lines-Accepted [] cfg l = l
parse_lines-Accepted (raw ∷ raws) cfg l =
    then_parse-Accepted (parse_line raw cfg) (parse_lines raws) (parse_line-Accepted raw cfg l)
      (parse_lines-Accepted raws)

accepted_lem :
    (r : Result ConfigError Config) (cfg : Config) → r ≡ ok cfg → Accepted r → IsListed cfg.sections
accepted_lem r cfg e a = rw e at a

-- A registry that `parse` accepts has valid aliases, and no alias twice.
pub parse-IsListed : (text : String) (cfg : Config) → parse text ≡ ok cfg → IsListed cfg.sections
unfolding parse
parse-IsListed text cfg e =
    accepted_lem (parse text) cfg e
      (parse_lines-Accepted (lines text) (record { preamble = []; sections = [] }) tt)
