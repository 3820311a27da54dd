-- ===== src/Progress/Tests.antt =====
-- The theorems on src/progress.rs at a small copy.
use coffer_fs.Base.{ℕ, ◌*◌, ◌/◌, ◌≡◌, true, false, some, List, [], ◌∷◌, ltb, leb}
use coffer_fs.Progress.{Speeds}
use coffer_fs.Progress.Line.{new_bar, Call, whole_copy, is_open, whole_copy-closed}

-- Whole numbers.
abbrev whole : Speeds
whole = record {
  F64 = ℕ;
  of_u64 = λ n. n;
  at_least_1024 = λ v. leb 1024 v;
  over_1024 = λ v. v / 1024;
  shown = λ v. 49 ∷ [];
  per_second = λ n t. n * 1000000000 / t;
  quotient = λ n v. n / v;
  is_positive = λ v. ltb 0 v;
  zero_f64 = 0;
  to_u64 = λ v. v;
}

abbrev calls : List Call
calls = record { copied = 5; size = 10; now = 2000000000; width = 80 } ∷ []

whole_copy-closed_example :
    is_open false (whole_copy whole (new_bar true 0) calls (some (3000000000, 80))) ≡ false
whole_copy-closed_example = whole_copy-closed whole (new_bar true 0) calls (some (3000000000, 80))
