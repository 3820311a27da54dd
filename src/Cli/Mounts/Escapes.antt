-- ===== src/Cli/Mounts/Escapes.antt =====
-- src/main.rs: `unescape_mountinfo` undoes what the kernel does to a path in mountinfo.
use coffer_fs.Base.{
  ℕ, ◌+◌, ◌/◌, ◌%◌, ◌<◌, ◌≡◌, refl, ap, ◌∙◌, Bool, true, false, ◌||◌, String, as_bytes, List, [],
  ◌∷◌, arith, ◌==◌, if◌then◌else◌, All, inl, inr, Bool-cases,
}
use coffer_fs.Base.{is_utf8}
use coffer_fs.Cli.Mounts.{is_octal, octal, unescape, unescape_mountinfo}

-- Space, tab, newline and backslash, as proc(5) says.
abbrev pub is_escaped : ℕ → Bool
is_escaped b = b == 32 || (b == 9 || (b == 10 || b == 92))

abbrev pub escape_byte : ℕ → List ℕ → List ℕ
escape_byte b rest =
    if is_escaped b then 92 ∷ (48 + b / 64) ∷ (48 + b / 8 % 8) ∷ (48 + b % 8) ∷ rest else b ∷ rest

unfoldable pub escape : List ℕ → List ℕ
escape [] = []
escape (b ∷ bs) = escape_byte b (escape bs)

unescape-plain : (b : ℕ) (bs : List ℕ) → (b == 92) ≡ false → unescape (b ∷ bs) ≡ b ∷ unescape bs
unfolding unescape
unescape-plain b [] h = refl
unescape-plain b (c ∷ []) h = refl
unescape-plain b (c ∷ d ∷ []) h = refl
unescape-plain b (c ∷ d ∷ e ∷ bs) h = rw h refl

digit_octal : (d : ℕ) → d < 8 → is_octal (48 + d) ≡ true
digit_octal d h = ground arith

octal_digits : (b : ℕ) → b < 256 → octal (48 + b / 64) (48 + b / 8 % 8) (48 + b % 8) ≡ b
octal_digits b h = omega arith

unescape-escape_byte :
    (b : ℕ) (bs : List ℕ) → b < 256 → unescape (escape_byte b bs) ≡ b ∷ unescape bs
unfolding unescape
unescape-escape_byte b bs h = elim (Bool-cases (is_escaped b)) [
  | inl e ↦
      rw
        (
          e,
          digit_octal (b / 64) (omega arith),
          digit_octal (b / 8 % 8) (omega arith),
          digit_octal (b % 8) (omega arith),
          octal_digits b h,
        )
        refl
  | inr e ↦ rw e (unescape-plain b bs (ground arith))
]

unescape-escape : (bs : List ℕ) → All (λ b. b < 256) bs → unescape (escape bs) ≡ bs
unfolding escape unescape
unescape-escape [] h = refl
unescape-escape (b ∷ bs) h =
    unescape-escape_byte b (escape bs) h.0 ∙ ap (λ r. b ∷ r) (unescape-escape bs h.1)

-- A path that is UTF-8 comes back from a field of mountinfo that holds its bytes as the kernel escapes
-- them, where the lossy conversion leaves UTF-8 alone.
pub unescape_mountinfo-escape :
    (lossy : List ℕ → List ℕ) (path : List ℕ) (field : String)
    → ((bs : List ℕ) → is_utf8 bs ≡ true → lossy bs ≡ bs)
    → All (λ b. b < 256) path
    → is_utf8 path ≡ true
    → as_bytes field ≡ escape path
    → unescape_mountinfo lossy field ≡ path
unfolding unescape_mountinfo
unescape_mountinfo-escape lossy path field lossless bytes u e =
    let back : unescape (as_bytes field) ≡ path = ap unescape e ∙ unescape-escape path bytes in
    ap lossy back ∙ lossless path u
