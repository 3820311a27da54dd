-- ===== src/Cli/Check.antt =====
-- src/main.rs: the verdict of `check`.
pub mod Session
use coffer_fs.Base.{
  ℕ, ◌+◌, ◌/◌, Bool, true, false, not, ◌&&◌, ◌||◌, Option, none, some, String, List, [], ◌∷◌,
  Result, ok, err, ltb, ◌==◌, str_eq, if◌then◌else◌,
}
use coffer_fs.Base.Words.{last_word}
use coffer_fs.Db.Container.Decimal.{parse_u64}

-- (4 * 1024 * 1024 * 1024) / page_size
unfoldable pub boundary_page : ℕ → ℕ
boundary_page page_size = 4294967296 / page_size

abbrev pub page_of : Option String → Option ℕ
page_of none = none
page_of (some word) = parse_u64 word

abbrev pub past : ℕ → Option ℕ → Bool
past boundary none = false
past boundary (some p) = ltb boundary p

-- A message on a page behind the first 4 GiB, where SQLCipher misreports.
unfoldable pub is_known_limitation : ℕ → String → Bool
unfolding boundary_page last_word parse_u64
is_known_limitation page_size msg = past (boundary_page page_size) (page_of (last_word msg))

abbrev pub real_problems : ℕ → List String → List String
real_problems page_size [] = []
real_problems page_size (m ∷ ms) =
    let rest = real_problems page_size ms in
    if is_known_limitation page_size m then rest else m ∷ rest

-- `lines == ["ok"]`
abbrev pub structurally_ok : List String → Bool
structurally_ok (l ∷ []) = str_eq l "ok"
structurally_ok _ = false

-- The count of `find_inconsistencies`, where the container has version 2 and it can be read.
abbrev pub logically_ok : Bool → Option (ℕ × ℕ) → Bool
logically_ok false counts = true
logically_ok true none = false
logically_ok true (some (dangling, unreachable)) = dangling == 0 && unreachable == 0

abbrev pub is_nil : List String → Bool
is_nil [] = true
is_nil (m ∷ ms) = false

-- What the two PRAGMAs print, and the rest that `check` asks.
pub record Findings : Type 0 where
  pub page_size : ℕ
  pub cipher_messages : List String
  pub integrity : List String
  pub is_version_2 : Bool
  pub counts : Option (ℕ × ℕ)

-- Whether `check` ends with status 0.
unfoldable pub check_passes : Findings → Bool
unfolding is_known_limitation
check_passes f =
    is_nil (real_problems f.page_size f.cipher_messages)
    && (structurally_ok f.integrity && logically_ok f.is_version_2 f.counts)
