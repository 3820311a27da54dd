-- ===== src/Cli/Mounts/Entries.antt =====
-- src/main.rs: the lines of the mount table that `coffer_mounts` takes.
use Prim.Native.String.{◌++◌}
use coffer_fs.Base.{
  ℕ, ◌<◌, ◌≡◌, refl, ap, ◌∙◌, true, Option, none, some, String, List, [], ◌∷◌, arith, eq_iff,
  str_eq, inl, inr, ◌⊎◌, Bool-cases,
}
use mathlib.Core.Option.{some-injective, none-ne-some}
use coffer_fs.Base.Words.{split_on, split_second, strip_prefix}
use coffer_fs.Base.Words.Laws.{strip_prefix_sound}
use coffer_fs.Db.Container.Decimal.{parse_u64}
use coffer_fs.Cli.Mounts.{
  is_fuse, is_ours, with_minor, minor_of, parse_u32, entry_of, mount_entry, unescape_mountinfo,
}

-- `fuse`, or `fuse` with a subtype.
abbrev pub IsFuse : String → Type 0
IsFuse fstype = (fstype ≡ "fuse") ⊎ ((subtype : String) × (fstype ≡ "fuse." ++ subtype))

is_fuse-IsFuse :
    (fstype : String) (o : Option String)
    → strip_prefix "fuse." fstype ≡ o
    → is_fuse fstype o ≡ true
    → IsFuse fstype
is_fuse-IsFuse fstype none e h = inl ((eq_iff fstype "fuse").0 h)
is_fuse-IsFuse fstype (some rest) e h = inr (rest, strip_prefix_sound "fuse." fstype rest e)

-- What stands behind the separator: the type and the source of the file system.
pub record IsCoffer (words : List String) : Type 0 where
  pub fstype : String
  pub rest : List String
  pub shape : words ≡ fstype ∷ "coffer" ∷ rest
  pub fuse : IsFuse fstype

is_ours-IsCoffer : (words : List String) → is_ours words ≡ true → IsCoffer words
is_ours-IsCoffer [] h = cc
is_ours-IsCoffer (fstype ∷ []) h = cc
is_ours-IsCoffer (fstype ∷ source ∷ rest) h =
    let both : (is_fuse fstype (strip_prefix "fuse." fstype) ≡ true)
        × (str_eq source "coffer" ≡ true) =
      ground (arith, h) in
    record {
      fstype = fstype;
      rest = rest;
      shape = ap (λ x. fstype ∷ x ∷ rest) ((eq_iff source "coffer").0 both.1);
      fuse = is_fuse-IsFuse fstype (strip_prefix "fuse." fstype) refl both.0;
    }

-- A device number `major:minor`.
pub record HasMinor (words : List String) (id : ℕ) : Type 0 where
  pub major : String
  pub minor : String
  pub rest : List String
  pub shape : words ≡ major ∷ minor ∷ rest
  pub number : parse_u64 minor ≡ some id
  pub small : id < 4294967296

parse_u32-bound :
    (o : Option ℕ) (id : ℕ) → parse_u32 o ≡ some id → (o ≡ some id) × (id < 4294967296)
parse_u32-bound none id h = cc
parse_u32-bound (some n) id h = ground (arith, h)

minor_of-HasMinor : (words : List String) (id : ℕ) → minor_of words ≡ some id → HasMinor words id
minor_of-HasMinor [] id h = cc
minor_of-HasMinor (major ∷ []) id h = cc
minor_of-HasMinor (major ∷ minor ∷ rest) id h =
    let (e, b) = parse_u32-bound (parse_u64 minor) id h in
    record { major = major; minor = minor; rest = rest; shape = refl; number = e; small = b }

module _ (lossy : List ℕ → List ℕ) where
  -- A line of a coffer mount: the fifth field is the mountpoint, the third has the number of the
  -- connection, and behind the first separator stand a FUSE type and the source `coffer`.
  pub record Shows (mountpoint : List ℕ) (id : ℕ) (line : String) : Type 0 where
    pub first : String
    pub second : String
    pub device : String
    pub root : String
    pub field : String
    pub rest : List String
    pub shape : split_on 32 line ≡ first ∷ second ∷ device ∷ root ∷ field ∷ rest
    pub at : unescape_mountinfo lossy field ≡ mountpoint
    pub connection : HasMinor (split_on 58 device) id
    pub behind : String
    pub separated : split_second " - " line ≡ some behind
    pub ours : IsCoffer (split_on 32 behind)

  coffer-Shows :
      (line first second device root field behind : String) (rest : List String) (mp : List ℕ)
      (id : ℕ)
      → split_on 32 line ≡ first ∷ second ∷ device ∷ root ∷ field ∷ rest
      → split_second " - " line ≡ some behind
      → is_ours (split_on 32 behind) ≡ true
      → with_minor (unescape_mountinfo lossy field) (minor_of (split_on 58 device)) ≡ some (mp, id)
      → Shows mp id line
  coffer-Shows line first second device root field behind rest mp id e f o h =
      numbered (minor_of (split_on 58 device)) refl h
    where
      numbered :
          (n : Option ℕ)
          → minor_of (split_on 58 device) ≡ n
          → with_minor (unescape_mountinfo lossy field) n ≡ some (mp, id)
          → Shows mp id line
      numbered none k h = cc
      numbered (some i) k h =
          let same : ◌≡◌ {A = List ℕ × ℕ} (unescape_mountinfo lossy field, i) (mp, id) =
            some-injective _ _ h in
          record {
            first = first;
            second = second;
            device = device;
            root = root;
            field = field;
            rest = rest;
            shape = e;
            at = ap (λ (x : List ℕ × ℕ). x.0) same;
            connection =
                minor_of-HasMinor (split_on 58 device) id
                  (k ∙ ap (λ (x : List ℕ × ℕ). some x.1) same);
            behind = behind;
            separated = f;
            ours = is_ours-IsCoffer (split_on 32 behind) o;
          }

  entry_of-Shows :
      (line : String) (fields : List String) (tail : Option String) (mp : List ℕ) (id : ℕ)
      → split_on 32 line ≡ fields
      → split_second " - " line ≡ tail
      → entry_of lossy fields tail ≡ some (mp, id)
      → Shows mp id line
  entry_of-Shows line (a ∷ b ∷ device ∷ root ∷ field ∷ rest) (some behind) mp id e f h =
      elim (Bool-cases (is_ours (split_on 32 behind))) [
        | inl o ↦ coffer-Shows line a b device root field behind rest mp id e f o (rw o at h)
        | inr o ↦ absurd (none-ne-some (mp, id) (rw o at h))
      ]
  entry_of-Shows line (a ∷ b ∷ device ∷ root ∷ field ∷ rest) none mp id e f h = cc
  entry_of-Shows line [] tail mp id e f h = cc
  entry_of-Shows line (a ∷ []) tail mp id e f h = cc
  entry_of-Shows line (a ∷ b ∷ []) tail mp id e f h = cc
  entry_of-Shows line (a ∷ b ∷ c ∷ []) tail mp id e f h = cc
  entry_of-Shows line (a ∷ b ∷ c ∷ d ∷ []) tail mp id e f h = cc

  pub mount_entry-Shows :
      (line : String) (mp : List ℕ) (id : ℕ)
      → mount_entry lossy line ≡ some (mp, id)
      → Shows mp id line
  unfolding mount_entry
  mount_entry-Shows line mp id h =
      entry_of-Shows line (split_on 32 line) (split_second " - " line) mp id refl refl h
