-- ===== src/Fs/Content/Succeeding.antt =====
-- `write` of src/fs.rs succeeds where the size, the quota and the tables allow it.
use coffer_fs.Base.{
  ℕ, zero, suc, ◌+◌, ◌-◌, ◌%◌, ◌≤◌, ◌≡◌, refl, ap, ◌∙◌, sym, ◌⊎◌, inl, inr, Bool, true, false, not,
  ◌&&◌, ◌||◌, some, List, [], ◌∷◌, arith, ltb, leb, ◌==◌, if◌then◌else◌, Result, ok, err, length,
  keep, subst, max,
}
use coffer_fs.Db.{Db, Xattr}
use coffer_fs.Db.Rows.{sum_sizes, is_xattr}
use coffer_fs.Sql.{
  SqlError, Errno, Conn, pure, always_eio, enoent, ◌>>=◌, ◌>>◌, map_err, attempt, statement,
  execute, ran, tick, failure, now_secs,
}
use coffer_fs.Sql.Calm.{Calm, Calm-tick}
use coffer_fs.Sql.Total.{
  Done, Succeeds, Succeeds-pure, Succeeds-or_fail, Succeeds-if, Succeeds-bind, Succeeds-query,
  Succeeds-execute, Succeeds-statement, Succeeds-now_secs, Succeeds-map_err, Succeeds-transaction,
  Succeeds-Ensures, Succeeds-weaken, Succeeds-given,
}
use coffer_fs.Fs.Schema.{
  CofferFs, InodeRow, touch, select_row, row_by_ino, get_block, put_block, current_total_size,
  u32_mod, u64_mod, max_file_size,
}
use coffer_fs.Fs.Inodes.{set_columns, resized, kill_priv, delete_xattrs}
use coffer_fs.Fs.Attr.{errno_for, writable}
use coffer_fs.Fs.Content.Loops.{write_loop}
use coffer_fs.Fs.Content.Calls.{write, check_quota, over_limit}
use coffer_fs.Fs.Content.Effects.{WrittenTo, write-WrittenTo}

module _ {P : Db → Type 0} where
  pub Succeeds-touch : Succeeds P (touch {E = Errno}) (λ _. P)
  unfolding touch ◌>>=◌
  Succeeds-touch = record { at = λ c calm p. (p, calm) }

  pub Succeeds-writable : (fs : CofferFs) → fs.read_only ≡ false → Succeeds P (writable fs) (λ _. P)
  unfolding writable
  Succeeds-writable fs rw_mount = rw rw_mount (Succeeds-pure tt λ db p. p)

-- A growth that the mount's limit leaves room for; 0 is no limit.
abbrev pub Fits : CofferFs → ℕ → Db → Type 0
Fits fs growth db = (fs.max_size ≡ 0) ⊎ (sum_sizes db.inodes + growth ≤ fs.max_size)

module _ (fs : CofferFs) (growth : ℕ) (d : Db) where
  abbrev Counted : Result SqlError ℕ → Db → Type 0
  Counted used db = (db ≡ d) × (over_limit fs.max_size growth used ≡ false)

  within :
      (used : ℕ) → used + growth ≤ fs.max_size → ltb fs.max_size ((used + growth) % u64_mod) ≡ false
  within used h = ground arith

  used_at :
      (b : Bool) (c : Conn)
      → Calm c
      → c.db ≡ d
      → sum_sizes c.db.inodes + growth ≤ fs.max_size
      → Done {E = Errno} Counted
          (ok (ran (tick c) (if b then ok (sum_sizes c.db.inodes, c.db) else err failure)).0)
          (ran (tick c) (if b then ok (sum_sizes c.db.inodes, c.db) else err failure)).1
  used_at true c calm e h = ((e, within (sum_sizes c.db.inodes) h), Calm-tick c calm)
  used_at false c calm e h = ((e, refl), Calm-tick c calm)

  counted :
      sum_sizes d.inodes + growth ≤ fs.max_size
      → Succeeds (λ db. db ≡ d) (attempt {F = Errno} current_total_size) Counted
  unfolding current_total_size attempt statement
  counted h = record {
    at = λ c calm e.
        rw (calm 0, statement)
          (used_at (leb (sum_sizes c.db.inodes) max_file_size) c calm e
            (subst (λ db. sum_sizes db.inodes + growth ≤ fs.max_size) (sym e) h));
  }

  check_quota-Fits :
      (asked : Bool)
      → Fits fs growth d
      → Succeeds (λ db. db ≡ d) (check_quota fs asked growth) (λ _ db. db ≡ d)
  unfolding check_quota
  check_quota-Fits asked (inl e) = rw e (Succeeds-pure tt λ db p. p)
  check_quota-Fits asked (inr h) =
      Succeeds-if (not (fs.max_size == 0) && asked) _ _
        (λ b.
          Succeeds-bind (counted h) λ used. Succeeds-given λ e. rw e (Succeeds-pure tt λ db p. p))
        (λ b. Succeeds-pure tt λ db p. p)

write_loop-Succeeds :
    {P : Db → Type 0} (blocks : (bs : _) (db : Db) → P db → P (record db { blocks = bs }))
    (fuel ino pos : ℕ) (bytes : List ℕ)
    → Succeeds P (write_loop fuel ino pos bytes) (λ _. P)
unfolding write_loop get_block put_block
write_loop-Succeeds blocks fuel ino pos [] = Succeeds-pure tt λ db p. p
write_loop-Succeeds blocks zero ino pos (x ∷ xs) = Succeeds-pure tt λ db p. p
write_loop-Succeeds blocks (suc fuel) ino pos (x ∷ xs) =
    Succeeds-bind (Succeeds-map_err always_eio (Succeeds-query _ λ db p. p)) λ buf.
      Succeeds-bind (Succeeds-map_err errno_for (Succeeds-execute _ λ db p. blocks _ db p))
        λ _. write_loop-Succeeds blocks fuel ino _ _

-- A container that has the table `xattrs`, as every one does after `migrate_to_v2`.
abbrev pub HasXattrs : Db → Type 0
HasXattrs db = (rows : List Xattr) × (db.xattrs ≡ some rows)

kill_priv-Succeeds : (ino : ℕ) → Succeeds HasXattrs (kill_priv ino) (λ _ _. Unit {0})
unfolding kill_priv delete_xattrs
kill_priv-Succeeds ino = Succeeds-bind (Succeeds-execute {Q = λ _. HasXattrs} _ λ db p. p) λ _.
    Succeeds-bind (Succeeds-execute {Q = λ _. HasXattrs} _ λ db p. p)
      λ _. Succeeds-statement _ deleted
  where
    deleted :
        (db : Db)
        → HasXattrs db
        → (x : Unit {0} × Db) × (delete_xattrs (is_xattr ino "security.capability") db ≡ ok x)
          × Unit {0}
    deleted db (rows, e) = (
      (
        tt,
        record db { xattrs = some (keep (λ a. not (is_xattr ino "security.capability" a)) rows) },
      ),
      rw (e, delete_xattrs) refl,
      tt,
    )

module _ (fs : CofferFs) (ino offset : ℕ) (bytes : List ℕ) (kill : Bool) (d : Db) where
  finishes :
      (row : InodeRow)
      → HasXattrs d
      → Fits fs (offset + length bytes - row.size) d
      → Succeeds
          (λ db. db ≡ d)
          (do
            check_quota fs (ltb row.size (offset + length bytes)) (offset + length bytes - row.size)
            write_loop (length bytes) ino offset bytes
            now ← now_secs
            map_err errno_for
                (execute (set_columns ino (resized (max row.size (offset + length bytes)) now)))
            if kill then map_err errno_for (kill_priv ino) else pure tt
            pure (length bytes % u32_mod))
          (λ n _. n ≡ length bytes % u32_mod)
  finishes row x fits = Succeeds-bind (check_quota-Fits fs _ d _ fits) λ _.
      Succeeds-bind
        (Succeeds-weaken {P' = HasXattrs} (λ db e. subst HasXattrs (sym e) x)
          (write_loop-Succeeds (λ bs db p. p) (length bytes) ino offset bytes))
        λ _. Succeeds-bind {Q = λ _. HasXattrs} (Succeeds-now_secs λ t db p. p) λ now.
          Succeeds-bind {Q = λ _. HasXattrs}
            (Succeeds-map_err errno_for (Succeeds-execute _ λ db p. p))
            λ _.
              Succeeds-bind {Q = λ _ _. Unit {0}}
                (Succeeds-if kill _ _ (λ _. Succeeds-map_err errno_for (kill_priv-Succeeds ino))
                  (λ _. Succeeds-pure tt λ db p. tt))
                λ _. Succeeds-pure _ λ db p. refl

  pub write-Succeeds :
      (row : InodeRow)
      → select_row ino d ≡ some row
      → fs.read_only ≡ false
      → offset + length bytes ≤ max_file_size
      → Fits fs (offset + length bytes - row.size) d
      → HasXattrs d
      → Succeeds (λ db. db ≡ d) (write fs ino offset bytes kill) (λ n _. n ≡ length bytes % u32_mod)
  unfolding write row_by_ino
  write-Succeeds row e w small fits x = Succeeds-bind Succeeds-touch λ _.
      Succeeds-bind (Succeeds-writable fs w) λ _.
        Succeeds-bind
          (Succeeds-if (ltb max_file_size offset || ltb (max_file_size - offset) (length bytes)) _ _
            (λ b. absurd (ground arith)) (λ b. Succeeds-pure tt λ db p. p))
          λ _. Succeeds-transaction errno_for (
            Succeeds-bind {Q = λ found db. (db ≡ d) × (found ≡ some row)}
              (Succeeds-map_err always_eio
                (Succeeds-query (select_row ino) λ db p. (p, ap (select_row ino) p ∙ e)))
              λ found. Succeeds-given λ f.
                Succeeds-bind {Q = λ r db. (db ≡ d) × (r ≡ row)}
                  (Succeeds-or_fail found enoent row f λ db p. (p, refl))
                  λ r. Succeeds-given λ g. rw g (finishes row x fits))

pub finished :
    {E A : Type 0} (a : A) (Q : Db → Type 0) (r : Result E A) (c : Conn)
    → Done (λ x db. (x ≡ a) × Q db) r c
    → (r ≡ ok a) × Q c.db
finished a Q (ok x) c ((e, q), calm) = (ap ok e, q)
finished a Q (err e) c h = absurd h

-- Where no statement fails, the mount is writable, the file is there, the bytes end within the
-- largest size, the limit of the mount leaves room for the growth and the table `xattrs` exists,
-- `write` answers with the number of the bytes, as a u32. The file then holds the bytes at the
-- offset, and each other byte of each file is as before, where a byte that is not stored reads 0;
-- its size is the greater of the old size and the end of the bytes; names, given numbers and the
-- sizes of other files are as before.
pub write_lem :
    (fs : CofferFs) (ino offset : ℕ) (bytes : List ℕ) (kill : Bool) (c : Conn) (row : InodeRow)
    → Calm c
    → select_row ino c.db ≡ some row
    → fs.read_only ≡ false
    → offset + length bytes ≤ max_file_size
    → Fits fs (offset + length bytes - row.size) c.db
    → HasXattrs c.db
    → ((write fs ino offset bytes kill c).0 ≡ ok (length bytes % u32_mod))
      × WrittenTo ino offset bytes c.db (write fs ino offset bytes kill c).1.db
write_lem fs ino offset bytes kill c row calm e w small fits x =
    finished (length bytes % u32_mod) (WrittenTo ino offset bytes c.db)
      (write fs ino offset bytes kill c).0 (write fs ino offset bytes kill c).1
      ((Succeeds-Ensures (write-Succeeds fs ino offset bytes kill c.db row e w small fits x)
          (write-WrittenTo fs ino offset bytes c.db kill)).at
        c calm refl)
