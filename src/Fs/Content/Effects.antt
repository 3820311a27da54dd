-- ===== src/Fs/Content/Effects.antt =====
-- What a `write` that succeeds leaves: the bytes, the size, and all that it does not touch.
use mathlib.Core.Option
use coffer_fs.Base.{
  ℕ, ◌+◌, ◌-◌, ◌%◌, max, ◌≡◌, refl, ap, ◌∙◌, sym, Bool, true, false, Option, none, some, List,
  arith, ltb, ◌==◌, ==_iff, if◌then◌else◌, length, inl, inr, Bool-cases,
}
use coffer_fs.Db.{Db, Columns, Inode}
use coffer_fs.Db.Rows.{find_inode, update_inode}
use coffer_fs.Db.Inodes.{find_inode-update_inode}
use coffer_fs.Sql.{always_eio, enoent, efbig, execute, now_secs, map_err, ◌>>=◌, ◌>>◌, pure}
use coffer_fs.Sql.Rules.{
  Keeps, Keeps-if, Keeps-fail, Keeps-pure, Keeps-map_err, Keeps-now_secs, Ensures-given, Ensures,
  Ensures-pure, Ensures-bind, Ensures-map_err, Ensures-query, Ensures-statement, Ensures-or_fail,
  Ensures-both, Ensures-weaken, Ensures-Keeps, Ensures-transaction,
}
use coffer_fs.Fs.Schema.{CofferFs, InodeRow, select_row, nlink_of, row_by_ino, u32_mod}
use coffer_fs.Fs.Inodes.{set_columns, resized, drop_setuid, drop_setgid, kill_priv}
use coffer_fs.Fs.Attr.{errno_for}
use coffer_fs.Fs.Content.Loops.{write_loop}
use coffer_fs.Fs.Content.Calls.{write, check_quota}
use coffer_fs.Fs.Content.Writing.{Written, write_loop_lem}
use coffer_fs.Fs.Consistency.Frame.{
  Keeps-touch, Keeps-writable, Keeps-check_quota, Keeps-write_loop, Keeps-kill_priv,
}

unfoldable pub size_of : ℕ → List Inode → Option ℕ
size_of i xs = Option.map (λ cols. cols.size) (find_inode i xs)

-- The size that a changed row shows.
size_map :
    (b : Bool) (f : Columns → Columns) (o : Option Columns)
    → Option.map (λ cols. cols.size) (if b then Option.map f o else o)
      ≡ (if b then Option.map (λ cols. (f cols).size) o else Option.map (λ cols. cols.size) o)
size_map true f none = refl
size_map true f (some cols) = refl
size_map false f o = refl

module _ (i : ℕ) (f : Columns → Columns) where
  pub size_of-update_inode :
      (j : ℕ) (xs : List Inode)
      → size_of j (update_inode i f xs)
        ≡ (if i == j then Option.map (λ cols. (f cols).size) (find_inode j xs) else size_of j xs)
  unfolding size_of
  size_of-update_inode j xs =
      ap (Option.map (λ cols. cols.size)) (find_inode-update_inode i f j xs)
      ∙ size_map (i == j) f (find_inode j xs)

  pub size_of-update_same :
      ((cols : Columns) → (f cols).size ≡ cols.size)
      → (j : ℕ) (xs : List Inode) → size_of j (update_inode i f xs) ≡ size_of j xs
  unfolding size_of
  size_of-update_same h j xs = size_of-update_inode j xs ∙ same (i == j) (find_inode j xs)
    where
      same :
          (b : Bool) (o : Option Columns)
          → (if b then Option.map (λ cols. (f cols).size) o else Option.map (λ cols. cols.size) o)
            ≡ Option.map (λ cols. cols.size) o
      same true none = refl
      same true (some cols) = ap some (h cols)
      same false o = refl

drop_setuid-size : (cols : Columns) → (drop_setuid cols).size ≡ cols.size
unfolding drop_setuid
drop_setuid-size cols = ground arith

drop_setgid-size : (cols : Columns) → (drop_setgid cols).size ≡ cols.size
unfolding drop_setgid
drop_setgid-size cols = ground arith

-- After a write to file `ino` of `d`: its bytes and its size; the names, the numbers that were given
-- out and the sizes of the other files are as before.
pub record WrittenTo (ino offset : ℕ) (bytes : List ℕ) (d db : Db) : Type 0 where
  pub content : Written ino offset bytes d.blocks db
  pub sizes :
      (j : ℕ)
      → size_of j db.inodes ≡ (
          if ino == j
          then Option.map (λ old. max old (offset + length bytes)) (size_of j d.inodes)
          else size_of j d.inodes)
  pub names : db.dentries ≡ d.dentries
  pub numbers : db.seq ≡ d.seq

pub select_row-find_inode :
    (ino : ℕ) (d : Db) (row : InodeRow)
    → select_row ino d ≡ some row
    → find_inode ino d.inodes ≡ some row.columns
unfolding select_row
select_row-find_inode ino d row e = mapped (find_inode ino d.inodes) e
  where
    mapped :
        (o : Option Columns)
        → Option.map (λ cols. record { columns = cols; nlink = nlink_of ino cols d.dentries }) o
          ≡ some row
        → o ≡ some row.columns
    mapped none e = cc
    mapped (some cols) e = cc

-- The tables but `data` and `xattrs`.
abbrev SameRows : Db → Db → Type 0
SameRows d db = (db.inodes ≡ d.inodes) × (db.dentries ≡ d.dentries) × (db.seq ≡ d.seq)

resized-size :
    (ino : ℕ) (f : Columns → Columns) (n : ℕ) (row : InodeRow) (xs ys : List Inode) (j : ℕ)
    → xs ≡ ys
    → find_inode ino ys ≡ some row.columns
    → ((cols : Columns) → (f cols).size ≡ max row.size n)
    → (if ino == j then Option.map (λ cols. (f cols).size) (find_inode j xs) else size_of j xs)
      ≡ (if ino == j then Option.map (λ old. max old n) (size_of j ys) else size_of j ys)
unfolding size_of
resized-size ino f n row xs ys j e k h = elim (Bool-cases (ino == j)) [
  | inl t ↦ rw (t, e) (same ((==_iff ino j).0 t))
  | inr t ↦ rw (t, e) refl
]
  where
    same :
        ino ≡ j
        → Option.map (λ cols. (f cols).size) (find_inode j ys)
          ≡ Option.map (λ old. max old n) (Option.map (λ cols. cols.size) (find_inode j ys))
    same i = rw (sym i, k) (ap some (h row.columns))

module _ {ino offset : ℕ} {bytes : List ℕ} {d : Db} where
  sized :
      (row : InodeRow) (now : ℕ)
      → select_row ino d ≡ some row
      → (db : Db) → Written ino offset bytes d.blocks db × SameRows d db
      → WrittenTo ino offset bytes d
          (set_columns ino (resized (max row.size (offset + length bytes)) now) db)
  sized row now e db h = record {
    content = h.0;
    sizes = λ j.
        size_of-update_inode ino (resized (max row.size (offset + length bytes)) now) j db.inodes
        ∙ resized-size ino (resized (max row.size (offset + length bytes)) now)
            (offset + length bytes) row db.inodes d.inodes j h.1.0
            (select_row-find_inode ino d row e) (λ cols. refl);
    names = h.1.1;
    numbers = h.1.2;
  }

  privileged :
      (f : Columns → Columns)
      → ((cols : Columns) → (f cols).size ≡ cols.size)
      → (db : Db) → WrittenTo ino offset bytes d db
      → WrittenTo ino offset bytes d (set_columns ino f db)
  privileged f same db w = record {
    content = w.content;
    sizes = λ j. size_of-update_same ino f same j db.inodes ∙ w.sizes j;
    names = w.names;
    numbers = w.numbers;
  }

  kill_priv-WrittenTo : Keeps (WrittenTo ino offset bytes d) (kill_priv ino)
  kill_priv-WrittenTo =
      Keeps-kill_priv
        (λ xs db w. record {
          content = w.content;
          sizes = w.sizes;
          names = w.names;
          numbers = w.numbers;
        })
        ino (privileged drop_setuid drop_setuid-size) (privileged drop_setgid drop_setgid-size)

module _ (fs : CofferFs) (ino offset : ℕ) (bytes : List ℕ) (d : Db) where
  SameRows-write_loop :
      Ensures
        (λ db. db ≡ d)
        (write_loop (length bytes) ino offset bytes)
        (λ _ db. Written ino offset bytes d.blocks db × SameRows d db)
  SameRows-write_loop =
      Ensures-both
        (Ensures-weaken (λ db h. ap (λ x. x.blocks) h)
          (write_loop_lem (length bytes) ino offset bytes d.blocks (omega arith)))
        (Ensures-weaken (λ db h. (ap (λ x. x.inodes) h, ap (λ x. x.dentries) h, ap (λ x. x.seq) h))
          (Ensures-Keeps {P = SameRows d}
            (Keeps-write_loop (λ bs db h. h) (length bytes) ino offset bytes)))

  -- The transaction of `write`, from the row that it reads.
  written_from :
      (kill : Bool) (row : InodeRow)
      → select_row ino d ≡ some row
      → Ensures
          (λ db. db ≡ d)
          (do
            check_quota fs (ltb row.size (offset + length bytes)) (offset + length bytes - row.size)
            write_loop (length bytes) ino offset bytes
            now ← now_secs
            map_err errno_for
                (execute (set_columns ino (resized (max row.size (offset + length bytes)) now)))
            if kill then map_err errno_for (kill_priv ino) else pure tt
            pure (length bytes % u32_mod))
          (λ _. WrittenTo ino offset bytes d)
  written_from kill row e = Ensures-bind (Ensures-Keeps (Keeps-check_quota fs _ _)) λ _.
      Ensures-bind SameRows-write_loop λ _. Ensures-bind (Ensures-Keeps Keeps-now_secs) λ now.
        Ensures-bind {Q = λ _. WrittenTo ino offset bytes d}
          (Ensures-map_err errno_for (Ensures-statement _ (λ db h. sized row now e db h)))
          λ _.
            Ensures-bind
              (Ensures-Keeps
                (Keeps-if _ _ _ (Keeps-map_err errno_for kill_priv-WrittenTo) (Keeps-pure tt)))
              λ _. Ensures-pure _ (λ db w. w)

  pub write-WrittenTo :
      (kill : Bool)
      → Ensures (λ db. db ≡ d) (write fs ino offset bytes kill) (λ _. WrittenTo ino offset bytes d)
  unfolding write row_by_ino
  write-WrittenTo kill = Ensures-bind (Ensures-Keeps Keeps-touch) λ _.
      Ensures-bind (Ensures-Keeps (Keeps-writable fs)) λ _.
        Ensures-bind (Ensures-Keeps (Keeps-if _ _ _ (Keeps-fail efbig) (Keeps-pure tt))) λ _.
          Ensures-transaction errno_for (
            Ensures-bind (Ensures-map_err always_eio (Ensures-query (select_row ino))) λ found.
              Ensures-bind {Q = λ row db. (db ≡ d) × (select_row ino d ≡ some row)}
                (Ensures-or_fail found enoent
                  λ row e db h. (h.0, ap (select_row ino) (sym h.0) ∙ h.1 ∙ e))
                λ row. Ensures-given (written_from kill row))
