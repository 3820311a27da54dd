-- ===== src/Config/Edit/Laws.antt =====
-- src/config.rs: a change of one vault leaves the others.
use coffer_fs.Base.{
  ◌≡◌, ◌≢◌, refl, ap, ◌∙◌, sym, String, Bool, true, false, not, Option, none, some, List, [], ◌∷◌,
  ◌++◌, Result, ok, err, arith, str_eq, eq_iff, keep, inl, inr, Bool-cases,
}
use coffer_fs.Config.{Section, Config, ConfigError, has_section}
use coffer_fs.Config.Vaults.{
  Vault, Fields, is_comment, read_line, and_then, read_fields, vault_from, finish, no_fields,
  find_section, vault_of, get,
}
use coffer_fs.Db.Locking.{Locking, automatic, exclusive, normal, as_str, parse_locking}
use coffer_fs.Config.Edit.{
  render, ends_blank, separated, with_blank, replace_section, append_section, upsert, remove,
}

blank_ignored : (home : Option String) (fs : Fields) → read_fields home ("" ∷ []) fs ≡ ok fs
unfolding read_fields is_comment
blank_ignored home fs = refl

and_then_ext :
    (r : Result ConfigError Fields) (f g : Fields → Result ConfigError Fields)
    → ((fs : Fields) → f fs ≡ g fs)
    → and_then r f ≡ and_then r g
and_then_ext (ok fs) f g h = h fs
and_then_ext (err e) f g h = refl

read_fields-blank :
    (home : Option String) (ls : List String) (fs : Fields)
    → read_fields home (ls ++ ("" ∷ [])) fs ≡ read_fields home ls fs
unfolding read_fields
read_fields-blank home [] fs = blank_ignored home fs
read_fields-blank home (l ∷ ls) fs = elim (Bool-cases (is_comment l)) [
  | inl e ↦ rw e (read_fields-blank home ls fs)
  | inr e ↦ rw e (and_then_ext (read_line home l fs) _ _ (read_fields-blank home ls))
]

module _ (home : Option String) where
  vault_from-with_blank :
      (name : String) (b : Bool) (ls : List String)
      → vault_from home (record { name = name; content = with_blank b ls })
        ≡ vault_from home (record { name = name; content = ls })
  unfolding vault_from
  vault_from-with_blank name false ls = refl
  vault_from-with_blank name true ls = ap (finish name) (read_fields-blank home ls no_fields)

  vault_from-separated :
      (name : String) (ls : List String)
      → vault_from home (record { name = name; content = separated ls })
        ≡ vault_from home (record { name = name; content = ls })
  unfolding separated
  vault_from-separated name [] = refl
  vault_from-separated name (l ∷ ls) = elim (Bool-cases (ends_blank (l ∷ ls))) [
    | inl e ↦ rw (e, separated) refl
    | inr e ↦ rw (e, separated) (vault_from-with_blank name true (l ∷ ls))
  ]

  not_both : (n a b : String) → str_eq n a ≡ true → a ≢ b → str_eq n b ≡ false
  not_both n a b e h = elim (Bool-cases (str_eq n b)) [
    | inl k ↦ absurd (h (sym ((eq_iff n a).0 e) ∙ (eq_iff n b).0 k))
    | inr k ↦ k
  ]

  abbrev vault_in : String → List Section → Option (Result ConfigError Vault)
  vault_in alias ss = vault_of home (find_section alias ss)

  module _ (a : String) (ls : List String) where
    abbrev new : Section
    new = record { name = a; content = ls }

    replace_section-other :
        (b : String) (ss : List Section)
        → a ≢ b
        → find_section b (replace_section a ls ss) ≡ find_section b ss
    unfolding find_section replace_section
    replace_section-other b [] h = refl
    replace_section-other b (s ∷ ss) h = elim (Bool-cases (str_eq s.name a)) [
      | inl e ↦ rw (e, not_both s.name a b e h) refl
      | inr e ↦ rw (e, replace_section-other b ss h) refl
    ]

    replace_section-same :
        (ss : List Section)
        → has_section a ss ≡ true
        → vault_in a (replace_section a ls ss) ≡ some (vault_from home new)
    unfolding find_section replace_section has_section
    replace_section-same [] h = cc
    replace_section-same (s ∷ ss) h = elim (Bool-cases (str_eq s.name a)) [
      | inl e ↦
          rw (e, e)
            (ap some (vault_from-with_blank s.name (ends_blank s.content) ls)
              ∙ ap (λ n. some (vault_from home (record { name = n; content = ls })))
                  ((eq_iff s.name a).0 e))
      | inr e ↦ rw (e, e) (replace_section-same ss (rw e at h))
    ]

    append_section-other :
        (b : String) (ss : List Section)
        → a ≢ b
        → vault_in b (append_section new ss) ≡ vault_in b ss
    unfolding find_section append_section
    append_section-other b [] h = rw (not_both a a b ((eq_iff a a).1 refl) h) refl
    append_section-other b (s ∷ []) h = elim (Bool-cases (str_eq s.name b)) [
      | inl e ↦ rw e (ap some (vault_from-separated s.name s.content))
      | inr e ↦ rw (e, not_both a a b ((eq_iff a a).1 refl) h) refl
    ]
    append_section-other b (s ∷ t ∷ ts) h = elim (Bool-cases (str_eq s.name b)) [
      | inl e ↦ rw e refl
      | inr e ↦ rw e (append_section-other b (t ∷ ts) h)
    ]

    append_section-same :
        (ss : List Section)
        → has_section a ss ≡ false
        → vault_in a (append_section new ss) ≡ some (vault_from home new)
    unfolding find_section append_section has_section
    append_section-same [] h = rw ((eq_iff a a).1 refl) refl
    append_section-same (s ∷ []) h = elim (Bool-cases (str_eq s.name a)) [
      | inl e ↦ absurd (ground arith)
      | inr e ↦ rw (e, (eq_iff a a).1 refl) refl
    ]
    append_section-same (s ∷ t ∷ ts) h = elim (Bool-cases (str_eq s.name a)) [
      | inl e ↦ absurd (ground arith)
      | inr e ↦ rw e (append_section-same (t ∷ ts) (rw e at h))
    ]

  without_section-other :
      (a b : String) (ss : List Section)
      → a ≢ b
      → find_section b (keep (λ s. not (str_eq s.name a)) ss) ≡ find_section b ss
  unfolding find_section
  without_section-other a b [] h = refl
  without_section-other a b (s ∷ ss) h = elim (Bool-cases (str_eq s.name a)) [
    | inl e ↦ rw (e, not_both s.name a b e h) (without_section-other a b ss h)
    | inr e ↦ rw (e, without_section-other a b ss h) refl
  ]

  without_section-same :
      (a : String) (ss : List Section)
      → find_section a (keep (λ s. not (str_eq s.name a)) ss) ≡ none
  unfolding find_section
  without_section-same a [] = refl
  without_section-same a (s ∷ ss) = ground (arith, without_section-same a ss)

  -- `upsert` says whether the vault was there. `get` of its alias then gives what the written lines
  -- say, and `get` of any other alias gives what it gave before.
  pub upsert-get :
      (v : Vault) (cfg : Config)
      → ((upsert v cfg).0 ≡ has_section v.alias cfg.sections)
        × (get home v.alias (upsert v cfg).1
            ≡ some (vault_from home (record { name = v.alias; content = render v })))
        × ((b : String) → v.alias ≢ b → get home b (upsert v cfg).1 ≡ get home b cfg)
  unfolding upsert get
  upsert-get v cfg = elim (Bool-cases (has_section v.alias cfg.sections)) [
    | inl e ↦
        rw (e, upsert)
          (
            refl,
            replace_section-same v.alias (render v) cfg.sections e,
            λ b h. ap (vault_of home) (replace_section-other v.alias (render v) b cfg.sections h),
          )
    | inr e ↦
        rw (e, upsert)
          (
            refl,
            append_section-same v.alias (render v) cfg.sections e,
            λ b h. append_section-other v.alias (render v) b cfg.sections h,
          )
  ]

  -- After `remove` no vault has the alias, and each other vault is as before.
  pub remove-get :
      (a : String) (cfg : Config)
      → (get home a (remove a cfg).1 ≡ none)
        × ((b : String) → a ≢ b → get home b (remove a cfg).1 ≡ get home b cfg)
  unfolding remove get
  remove-get a cfg = (
    ap (vault_of home) (without_section-same a cfg.sections),
    λ b h. ap (vault_of home) (without_section-other a b cfg.sections h),
  )

-- Each way to lock a mount is read back from its name.
pub parse_locking-as_str : (l : Locking) → parse_locking (as_str l) ≡ some l
unfolding parse_locking as_str
parse_locking-as_str automatic = refl
parse_locking-as_str exclusive = refl
parse_locking-as_str normal = refl
