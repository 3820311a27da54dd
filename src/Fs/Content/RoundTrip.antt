-- ===== src/Fs/Content/RoundTrip.antt =====
-- `write`, then `read` of src/fs.rs.
use mathlib.Core.Option
use coffer_fs.Base.{
  ℕ, ◌+◌, ◌-◌, ◌%◌, ◌≤◌, ◌<◌, max, ◌≡◌, refl, ap, ◌∙◌, Bool, true, false, Option, none, some, List,
  arith, ltb, leb, ==_refl, Result, ok, err, length, byte, tabulate_ext, tabulate-get_or,
}
use coffer_fs.Db.{Db, Columns}
use coffer_fs.Db.Rows.{find_inode}
use coffer_fs.Db.Blocks.{byte_at}
use coffer_fs.Sql.{Errno, Conn}
use coffer_fs.Sql.Calm.{Calm}
use coffer_fs.Sql.Total.{Done, Succeeds-Ensures}
use coffer_fs.Fs.Schema.{CofferFs, InodeRow, select_row, nlink_of, max_file_size, u32_mod}
use coffer_fs.Fs.Content.Calls.{read, write}
use coffer_fs.Fs.Content.Chunks.{overlay}
use coffer_fs.Fs.Content.Reading.{read_lem, bytes_from}
use coffer_fs.Fs.Content.Effects.{WrittenTo, size_of, select_row-find_inode, write-WrittenTo}
use coffer_fs.Fs.Content.Succeeding.{Fits, HasXattrs, write-Succeeds}

-- What lies under the written range.
covered :
    (ino offset : ℕ) (bytes : List ℕ) (old : ℕ → ℕ → ℕ) (k : ℕ)
    → k < length bytes
    → overlay ino offset bytes old ino (offset + k) ≡ byte bytes k
covered ino offset bytes old k h = rw (==_refl ino, low, high, sub) refl
  where
    low : leb offset (offset + k) ≡ true
    low = ground arith

    high : ltb (offset + k) (offset + length bytes) ≡ true
    high = ground arith

    sub : offset + k - offset ≡ k
    sub = omega arith

written_bytes :
    (ino offset : ℕ) (bytes : List ℕ) (d db : Db)
    → WrittenTo ino offset bytes d db
    → bytes_from db.blocks ino offset (length bytes) ≡ bytes
written_bytes ino offset bytes d db w =
    tabulate_ext (length bytes) _ _
      (λ k h. w.content ino (offset + k) ∙ covered ino offset bytes (byte_at d.blocks) k h)
    ∙ tabulate-get_or bytes 0

-- The row after the write.
pub sized_row :
    (ino n : ℕ) (db : Db)
    → size_of ino db.inodes ≡ some n
    → (row : InodeRow) × (select_row ino db ≡ some row) × (row.size ≡ n)
unfolding size_of select_row
sized_row ino n db e = found (find_inode ino db.inodes) e
  where
    found :
        (o : Option Columns)
        → Option.map (λ cols. cols.size) o ≡ some n
        → (row : InodeRow) × (Option.map
              (λ cols. record { columns = cols; nlink = nlink_of ino cols db.dentries })
              o
            ≡ some row)
          × (row.size ≡ n)
    found none e = cc
    found (some cols) e =
        (record { columns = cols; nlink = nlink_of ino cols db.dentries }, refl, cc)

module _ (ino offset : ℕ) (bytes : List ℕ) (c : Conn) (row : InodeRow) where
  new_size :
      (db : Db)
      → select_row ino c.db ≡ some row
      → WrittenTo ino offset bytes c.db db
      → size_of ino db.inodes ≡ some (max row.size (offset + length bytes))
  unfolding size_of
  new_size db e w =
      w.sizes ino
      ∙ rw (==_refl ino) (
          ap
            (λ o.
              Option.map (λ old. max old (offset + length bytes))
                (Option.map (λ cols. cols.size) o))
            (select_row-find_inode ino c.db row e))

  reads_back :
      (r : Result Errno ℕ) (c' : Conn)
      → select_row ino c.db ≡ some row
      → offset + length bytes ≤ max_file_size
      → length bytes < u32_mod
      → row.size ≤ max_file_size
      → Done (λ n db. (n ≡ length bytes % u32_mod) × WrittenTo ino offset bytes c.db db) r c'
      → (read ino offset (length bytes) c').0 ≡ ok bytes
  reads_back (err x) c' e small short old h = absurd h
  reads_back (ok n) c' e small short old ((k, w), calm) =
      let (row', f, s) =
        sized_row ino (max row.size (offset + length bytes)) c'.db (new_size c'.db e w) in
      read_lem ino offset (length bytes) row' c' calm f (omega arith) short (omega (arith, s))
      ∙ ap (λ m. ok (bytes_from c'.db.blocks ino offset m)) (omega (arith, s))
      ∙ ap ok (written_bytes ino offset bytes c.db c'.db w)

  -- Where no statement fails, the mount is writable, the file is there and no larger than an i64,
  -- the bytes are fewer than 2 ^ 32, end within the largest size and fit the limit of the mount, and
  -- the table `xattrs` exists: after `write` of the bytes, `read` of as many at the same offset
  -- answers with the bytes, wherever they lie in the file or behind its end.
  pub write-read :
      (fs : CofferFs) (kill : Bool)
      → Calm c
      → select_row ino c.db ≡ some row
      → fs.read_only ≡ false
      → offset + length bytes ≤ max_file_size
      → length bytes < u32_mod
      → row.size ≤ max_file_size
      → Fits fs (offset + length bytes - row.size) c.db
      → HasXattrs c.db
      → (read ino offset (length bytes) (write fs ino offset bytes kill c).1).0 ≡ ok bytes
  write-read fs kill calm e w small short old fits x =
      reads_back (write fs ino offset bytes kill c).0 (write fs ino offset bytes kill c).1 e small
        short old
        ((Succeeds-Ensures (write-Succeeds fs ino offset bytes kill c.db row e w small fits x)
            (write-WrittenTo fs ino offset bytes c.db kill)).at
          c calm refl)
