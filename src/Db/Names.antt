-- ===== src/Db/Names.antt =====
-- The table `dentries`: keys, link counts and lookups under the statements on it.
use coffer_fs.Base.{
  ℕ, ◌+◌, String, ◌≡◌, ◌≢◌, ◌∙◌, Bool-cases, inl, inr, refl, sym, true, false, none, some, List, [],
  ◌∷◌, arith, ◌==◌, eq_iff, if◌then◌else◌, All,
}
use coffer_fs.Db.{Dentry}
use coffer_fs.Db.Rows.{is_name, find_name, count_names, without_name, move_name}

-- The primary key (parent, name): no later row has the key of an earlier one.
abbrev pub Unique : List Dentry → Type 0
Unique [] = Unit
Unique (d ∷ ds) = (find_name d.parent d.name ds ≡ none) × Unique ds

pub is_name_iff :
    (p : ℕ) (n : String) (d : Dentry) → is_name p n d ≡ true → (d.parent ≡ p) × (d.name ≡ n)
unfolding is_name
is_name_iff p n d h = ground (arith, eq_iff d.name n)

pub is_name_self : (d : Dentry) → is_name d.parent d.name d ≡ true
unfolding is_name
is_name_self d = ground (arith, eq_iff d.name d.name)

-- A row does not match two keys.
pub other_name :
    (p : ℕ) (n : String) (q : ℕ) (m : String) (d : Dentry)
    → (p ≡ q → n ≢ m)
    → is_name p n d ≡ true
    → is_name q m d ≡ false
other_name p n q m d h e = elim (Bool-cases (is_name q m d)) [
  | inl k ↦
      (let a = is_name_iff p n d e in
        let b = is_name_iff q m d k in absurd (h (sym a.0 ∙ b.0) (sym a.1 ∙ b.1)))
  | inr k ↦ k
]

-- Two keys that both match a row are one key.
pub find_name_same :
    (p : ℕ) (n : String) (d : Dentry) (ds : List Dentry)
    → is_name p n d ≡ true
    → find_name d.parent d.name ds ≡ find_name p n ds
find_name_same p n d ds h = let k = is_name_iff p n d h in λ i. find_name (k.0 i) (k.1 i) ds

pub without_name_missing :
    (p : ℕ) (n : String) (ds : List Dentry) → find_name p n ds ≡ none → without_name p n ds ≡ ds
unfolding find_name without_name
without_name_missing p n [] h = refl
without_name_missing p n (d ∷ ds) h = ground (arith, without_name_missing p n ds)

-- One name less for the inode that the deleted row named, and as many for the others.
pub count_names-without_name :
    (p : ℕ) (n : String) (i j : ℕ) (ds : List Dentry)
    → Unique ds
    → find_name p n ds ≡ some i
    → (if i == j then 1 else 0) + count_names j (without_name p n ds) ≡ count_names j ds
unfolding find_name without_name count_names
count_names-without_name p n i j [] u h = ground arith
count_names-without_name p n i j (d ∷ ds) u h = ground (
  arith,
  find_name_same p n d ds,
  without_name_missing p n ds,
  count_names-without_name p n i j ds u.1,
)

pub find_name-without_name :
    (p : ℕ) (n : String) (q : ℕ) (m : String) (ds : List Dentry)
    → find_name q m ds ≡ none
    → find_name q m (without_name p n ds) ≡ none
unfolding find_name without_name
find_name-without_name p n q m [] h = refl
find_name-without_name p n q m (d ∷ ds) h = ground (arith, find_name-without_name p n q m ds)

pub find_name-without_name_self :
    (p : ℕ) (n : String) (ds : List Dentry) → find_name p n (without_name p n ds) ≡ none
unfolding find_name without_name
find_name-without_name_self p n [] = refl
find_name-without_name_self p n (d ∷ ds) = ground (arith, find_name-without_name_self p n ds)

pub find_name-without_other :
    (p : ℕ) (n : String) (q : ℕ) (m : String) (ds : List Dentry)
    → (p ≡ q → n ≢ m)
    → find_name q m (without_name p n ds) ≡ find_name q m ds
unfolding find_name without_name
find_name-without_other p n q m [] h = refl
find_name-without_other p n q m (d ∷ ds) h =
    ground (arith, find_name-without_other p n q m ds h, other_name p n q m d h)

pub Unique-without_name :
    (p : ℕ) (n : String) (ds : List Dentry) → Unique ds → Unique (without_name p n ds)
unfolding without_name
Unique-without_name p n [] u = tt
Unique-without_name p n (d ∷ ds) u =
    ground (arith, find_name-without_name p n d.parent d.name ds, Unique-without_name p n ds u.1)

pub All-without_name :
    (P : Dentry → Type 0) (p : ℕ) (n : String) (ds : List Dentry)
    → All P ds
    → All P (without_name p n ds)
unfolding without_name
All-without_name P p n [] h = tt
All-without_name P p n (d ∷ ds) h = ground (arith, All-without_name P p n ds h.1)

-- A rename moves a key and leaves every link count.
pub count_names-move_name :
    (p' : ℕ) (n' : String) (p : ℕ) (n : String) (j : ℕ) (ds : List Dentry)
    → count_names j (move_name p' n' p n ds) ≡ count_names j ds
unfolding count_names move_name
count_names-move_name p' n' p n j [] = refl
count_names-move_name p' n' p n j (d ∷ ds) = ground (arith, count_names-move_name p' n' p n j ds)

pub move_name_missing :
    (p' : ℕ) (n' : String) (p : ℕ) (n : String) (ds : List Dentry)
    → find_name p n ds ≡ none
    → move_name p' n' p n ds ≡ ds
unfolding find_name move_name
move_name_missing p' n' p n [] h = refl
move_name_missing p' n' p n (d ∷ ds) h = ground (arith, move_name_missing p' n' p n ds)

-- What a rename adds to the keys is the new key alone.
abbrev moved : ℕ → String → Dentry → Dentry
moved p' n' d = record d { parent = p'; name = n' }

is_name-moved :
    (p' : ℕ) (n' : String) (e d : Dentry)
    → is_name p' n' e ≡ false
    → is_name e.parent e.name (moved p' n' d) ≡ false
unfolding is_name
is_name-moved p' n' e d h = ground (arith, eq_iff e.name n', eq_iff n' e.name)

find_name-move_name :
    (p' : ℕ) (n' : String) (p : ℕ) (n : String) (e : Dentry) (ds : List Dentry)
    → find_name e.parent e.name ds ≡ none
    → is_name p' n' e ≡ false
    → find_name e.parent e.name (move_name p' n' p n ds) ≡ none
unfolding find_name move_name
find_name-move_name p' n' p n e [] h k = refl
find_name-move_name p' n' p n e (d ∷ ds) h k =
    ground (arith, is_name-moved p' n' e d, find_name-move_name p' n' p n e ds)

pub Unique-move_name :
    (p' : ℕ) (n' : String) (p : ℕ) (n : String) (ds : List Dentry)
    → Unique ds
    → find_name p' n' ds ≡ none
    → Unique (move_name p' n' p n ds)
unfolding find_name move_name
Unique-move_name p' n' p n [] u h = tt
Unique-move_name p' n' p n (d ∷ ds) u h = ground (
  arith,
  Unique-move_name p' n' p n ds u.1,
  find_name_same p n d ds,
  move_name_missing p' n' p n ds,
  find_name-move_name p' n' p n d ds u.0,
)

moved_same : (p : ℕ) (n : String) (d : Dentry) → is_name p n d ≡ true → moved p n d ≡ d
moved_same p n d h =
    let k = is_name_iff p n d h in λ i. record { parent = sym k.0 i; name = sym k.1 i; ino = d.ino }

pub move_name_same : (p : ℕ) (n : String) (ds : List Dentry) → move_name p n p n ds ≡ ds
unfolding move_name
move_name_same p n [] = refl
move_name_same p n (d ∷ ds) = ground (arith, moved_same p n d, move_name_same p n ds)

pub All-move_name :
    (P : ℕ → Type 0) (p' : ℕ) (n' : String) (p : ℕ) (n : String) (ds : List Dentry)
    → All (λ d. P d.ino) ds
    → All (λ d. P d.ino) (move_name p' n' p n ds)
unfolding move_name
All-move_name P p' n' p n [] h = tt
All-move_name P p' n' p n (d ∷ ds) h = ground (arith, All-move_name P p' n' p n ds h.1)
