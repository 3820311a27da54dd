-- ===== src/Cli/Check/Session.antt =====
-- src/main.rs: `check` on a container that a mount has used.
use coffer_fs.Base.{
  ℕ, ◌*◌, ◌<◌, ◌/◌, ◌≡◌, ◌↔◌, subst, sym, Option, none, refl, ap, ◌∙◌, Bool, true, false, ◌&&◌,
  some, String, List, [], ◌∷◌, arith, eq_iff, All, inl, inr, Bool-cases,
}
use coffer_fs.Db.Check.{find_inconsistencies}
use coffer_fs.Sql.{Conn}
use coffer_fs.Fs.Schema.{CofferFs}
use coffer_fs.Fs.Serve.{Request, session}
use coffer_fs.Fs.Consistency.Names.{Sound}
use coffer_fs.Fs.Consistency.Session.{session-find_inconsistencies}
use mathlib.Core.Option.{some-injective, none-ne-some}
use native.Mathlib.Nat.{div-lt_iff_lt-mul}
use coffer_fs.Base.Words.{last_word}
use coffer_fs.Db.Container.Decimal.{parse_u64}
use coffer_fs.Cli.Check.{
  boundary_page, past, page_of, is_known_limitation, real_problems, structurally_ok, logically_ok,
  is_nil, Findings, check_passes,
}

-- A message that ends in the number of a page which does not lie within the first 4 GiB.
abbrev pub Behind : ℕ → String → Type 0
Behind page_size m =
    (word : String) × (page : ℕ) × (last_word m ≡ some word)
    × (parse_u64 word ≡ some page)
    × (4 * (1024 * (1024 * 1024)) < page * page_size)

abbrev pub OnlyKnown : ℕ → List String → Type 0
OnlyKnown page_size = All (Behind page_size)

module _ (page_size : ℕ) (nonzero : 0 < page_size) where
  number-Behind :
      (m word : String) (n : Option ℕ)
      → last_word m ≡ some word
      → parse_u64 word ≡ n
      → (past (boundary_page page_size) n ≡ true) ↔ Behind page_size m
  unfolding boundary_page
  number-Behind m word none e k = (
    λ h. cc,
    λ (w, p, e', k', l).
        let same : w ≡ word = some-injective _ _ (sym e' ∙ e) in
        absurd (none-ne-some p (sym k ∙ ap parse_u64 (sym same) ∙ k')),
  )
  number-Behind m word (some page) e k =
      let d = div-lt_iff_lt-mul {k = page_size} {x = 4294967296} {y = page} nonzero in
      (
        λ h. (word, page, e, k, d.0 (ground (arith, h))),
        λ (w, p, e', k', l).
            let same : w ≡ word = some-injective _ _ (sym e' ∙ e) in
            let number : p ≡ page = some-injective _ _ (sym k' ∙ ap parse_u64 same ∙ k) in
            let before : 4294967296 / page_size < page =
              d.1 (subst (λ x. 4294967296 < x * page_size) number l) in
            ground (arith, before),
      )

  message-Behind :
      (m : String) (o : Option String)
      → last_word m ≡ o
      → (past (boundary_page page_size) (page_of o) ≡ true) ↔ Behind page_size m
  message-Behind m none e = (λ h. cc, λ (w, p, e', k', l). absurd (none-ne-some w (sym e ∙ e')))
  message-Behind m (some word) e = number-Behind m word (parse_u64 word) e refl

  is_known_limitation-Behind :
      (m : String) → (is_known_limitation page_size m ≡ true) ↔ Behind page_size m
  unfolding is_known_limitation
  is_known_limitation-Behind m = message-Behind m (last_word m) refl

  real_problems-OnlyKnown :
      (ms : List String) → (is_nil (real_problems page_size ms) ≡ true) ↔ OnlyKnown page_size ms
  real_problems-OnlyKnown [] = (λ h. tt, λ h. refl)
  real_problems-OnlyKnown (m ∷ ms) =
      let b = is_known_limitation-Behind m in
      elim (Bool-cases (is_known_limitation page_size m)) [
        | inl e ↦
            (let ih = real_problems-OnlyKnown ms in
              (λ h. (b.0 e, ih.0 (rw e at h)), λ h. rw e (ih.1 h.1)))
        | inr e ↦
            (λ h. absurd (ground (arith, (rw e at h))), λ h. absurd (ground (arith, e, b.1 h.0)))
      ]

structurally_ok-eq : (ls : List String) → (structurally_ok ls ≡ true) ↔ (ls ≡ "ok" ∷ [])
structurally_ok-eq [] = (λ h. cc, λ h. cc)
structurally_ok-eq (l ∷ []) =
    (λ h. ap (λ x. x ∷ []) ((eq_iff l "ok").0 h), λ h. (eq_iff l "ok").1 (ground arith))
structurally_ok-eq (l ∷ m ∷ ls) = (λ h. cc, λ h. cc)

logically_ok-zero : (b : Bool) → logically_ok b (some (0, 0)) ≡ true
logically_ok-zero true = refl
logically_ok-zero false = refl

and_true : (a b c : Bool) → c ≡ true → ((a && (b && c)) ≡ true) ↔ ((a ≡ true) × (b ≡ true))
and_true a b c h = ground arith

-- After any session of a mount whose container was consistent, and where pages are not empty, `check`
-- ends well exactly when the integrity check of SQLite prints "ok" and every message of the page check
-- of SQLCipher ends in the number of a page that does not lie within the first 4 GiB (the number times
-- the page size is more): the check of names and inodes adds no failure.
pub check_passes-session :
    (fs : CofferFs) (c : Conn) (requests : List Request) (f : Findings)
    → Sound c.db
    → 0 < f.page_size
    → f.counts ≡ some (find_inconsistencies (session fs c requests).db)
    → (check_passes f ≡ true)
      ↔ (OnlyKnown f.page_size f.cipher_messages × (f.integrity ≡ "ok" ∷ []))
unfolding check_passes
check_passes-session fs c requests f s p e =
    let zero : f.counts ≡ some (0, 0) =
      e ∙ ap some (session-find_inconsistencies fs c requests s) in
    let l : logically_ok f.is_version_2 f.counts ≡ true =
      ap (logically_ok f.is_version_2) zero ∙ logically_ok-zero f.is_version_2 in
    let k =
      and_true (is_nil (real_problems f.page_size f.cipher_messages)) (structurally_ok f.integrity)
        (logically_ok f.is_version_2 f.counts) l in
    let m = real_problems-OnlyKnown f.page_size p f.cipher_messages in
    let n = structurally_ok-eq f.integrity in
    (λ h. (m.0 (k.0 h).0, n.0 (k.0 h).1), λ h. k.1 (m.1 h.0, n.1 h.1))
