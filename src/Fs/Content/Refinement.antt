-- ===== src/Fs/Content/Refinement.antt =====
-- `write` and `truncate_inode` of src/fs.rs implement a file that is an array of bytes.
use coffer_fs.Base.{
  ℕ, ◌+◌, ◌-◌, ◌≤◌, ◌<◌, min, max, ◌≡◌, refl, ap, ◌∙◌, sym, subst, false, ◌&&◌, byte, some, List,
  [], ◌∷◌, arith, length, ltb, leb, ==_refl, if◌then◌else◌, All, tabulate, tabulate_ext, ok, inl,
  Result, err,
}
use coffer_fs.Db.{Db}
use coffer_fs.Db.Blocks.{byte_at}
use coffer_fs.Sql.{Conn, Run, Errno, pure, ◌>>=◌, ◌>>◌, map_err, always_eio}
use coffer_fs.Sql.Calm.{Calm}
use coffer_fs.Sql.Total.{
  Is, Done, Succeeds, Succeeds-Ensures, Succeeds-post, Succeeds-bind, Succeeds-pure,
  Succeeds-map_err,
}
use coffer_fs.Sql.Rules.{Ensures-both, Ensures-Keeps, Ensures-weaken}
use coffer_fs.Fs.Schema.{CofferFs, max_file_size, u32_mod, u64_mod}
use coffer_fs.Fs.Inodes.{truncate_inode}
use coffer_fs.Fs.Content.Calls.{read, write}
use coffer_fs.Fs.Content.Reading.{read_lem, bytes_from}
use coffer_fs.Fs.Content.Effects.{size_of, WrittenTo, write-WrittenTo, select_row-find_inode}
use coffer_fs.Fs.Content.Succeeding.{HasXattrs, write-Succeeds}
use coffer_fs.Fs.Content.Truncating.{Truncated, truncate_inode-Truncated}
use coffer_fs.Fs.Content.RoundTrip.{sized_row}
use coffer_fs.Fs.Consistency.Frame.{IsFramed, Keeps-truncate_inode}
use coffer_fs.Fs.Consistency.Rest.{write-IsFramed}

-- What a file is to those who use it.
pub record File : Type 0 where
  pub size : ℕ
  pub byte_of : ℕ → ℕ

pub data Change : Type 0 where
  writes : ℕ → List ℕ → Change
  cuts : ℕ → Change

-- Bytes that are written cover the old ones; what lies behind the end is zero.
abbrev pub changed : Change → File → File
changed (writes offset bytes) f = record {
  size = max f.size (offset + length bytes);
  byte_of = λ q.
      if leb offset q && ltb q (offset + length bytes)
      then byte bytes (q - offset)
      else f.byte_of q;
}
changed (cuts n) f = record { size = n; byte_of = λ q. if leb n q then 0 else f.byte_of q }

-- What a reader is given: as many bytes as asked for, or as there are.
abbrev pub bytes_read : ℕ → ℕ → File → List ℕ
bytes_read offset size f =
    tabulate (min (offset + size) f.size - offset) (λ k. f.byte_of (offset + k))

unfoldable pub all_changed : List Change → File → File
all_changed [] f = f
all_changed (x ∷ xs) f = all_changed xs (changed x f)

abbrev pub IsLegal : Change → Type 0
IsLegal (writes offset bytes) = offset + length bytes ≤ max_file_size
IsLegal (cuts n) = n ≤ max_file_size

-- The tables hold this file under this number.
pub record Holds (ino : ℕ) (f : File) (db : Db) : Type 0 where
  pub sized : size_of ino db.inodes ≡ some f.size
  pub bytes : (q : ℕ) → byte_at db.blocks ino q ≡ f.byte_of q
  pub small : f.size ≤ max_file_size
  pub attributes : HasXattrs db

HasXattrs-IsFramed : IsFramed HasXattrs
HasXattrs-IsFramed = record {
  columns = λ i f db p. p;
  blocks = λ bs db p. p;
  xattrs = λ xs db p. (xs, refl);
}

module _ (fs : CofferFs) (ino : ℕ) where
  -- The call of a change, whose answer is not looked at further.
  abbrev pub called : Change → Run Errno (Unit {0})
  called (writes offset bytes) = do n ← write fs ino offset bytes false; pure tt
  called (cuts n) = map_err always_eio (truncate_inode ino n)

  unfoldable pub all_called : List Change → Run Errno (Unit {0})
  all_called [] = pure tt
  all_called (x ∷ xs) = do called x; all_called xs

  written :
      (offset : ℕ) (bytes : List ℕ) (f : File) (d db : Db)
      → offset + length bytes ≤ max_file_size
      → Holds ino f d
      → WrittenTo ino offset bytes d db
      → HasXattrs db
      → Holds ino (changed (writes offset bytes) f) db
  written offset bytes f d db small h w x = record {
    sized = w.sizes ino ∙ rw (==_refl ino, h.sized) refl;
    bytes = λ q. w.content ino q ∙ rw (==_refl ino, h.bytes q) refl;
    small = omega (arith, small, h.small);
    attributes = x;
  }

  truncated :
      (n : ℕ) (f : File) (d db : Db)
      → n ≤ max_file_size
      → Holds ino f d
      → Truncated ino n d db
      → HasXattrs db
      → Holds ino (changed (cuts n) f) db
  truncated n f d db small h t x =
      let (row, r, s) = sized_row ino f.size d h.sized in
      record {
        sized = t.sizes ino ∙ rw (==_refl ino, select_row-find_inode ino d row r) refl;
        bytes = λ q. t.content ino q ∙ rw (==_refl ino, h.bytes q) refl;
        small = small;
        attributes = x;
      }

  write-Holds :
      (offset : ℕ) (bytes : List ℕ) (f : File) (d : Db)
      → fs.read_only ≡ false
      → fs.max_size ≡ 0
      → offset + length bytes ≤ max_file_size
      → Holds ino f d
      → Succeeds
          (Is d)
          (write fs ino offset bytes false)
          (λ n db. Holds ino (changed (writes offset bytes) f) db)
  write-Holds offset bytes f d w l small h =
      let (row, r, s) = sized_row ino f.size d h.sized in
      Succeeds-post (λ n db q. written offset bytes f d db small h q.1.0 q.1.1)
        (Succeeds-Ensures
          (write-Succeeds fs ino offset bytes false d row r w small (inl l) h.attributes)
          (Ensures-both (write-WrittenTo fs ino offset bytes d false) (
            Ensures-weaken (λ db e. subst HasXattrs (sym e) h.attributes)
              (Ensures-Keeps (write-IsFramed HasXattrs-IsFramed fs ino offset bytes false)))))

  truncate_inode-Holds :
      (n : ℕ) (f : File) (d : Db)
      → n ≤ max_file_size
      → Holds ino f d
      → Succeeds (Is d) (truncate_inode ino n) (λ u db. Holds ino (changed (cuts n) f) db)
  truncate_inode-Holds n f d small h =
      Succeeds-post (λ u db q. truncated n f d db small h q.0.1 q.1)
        (Succeeds-Ensures (truncate_inode-Truncated ino n d) (
          Ensures-weaken (λ db e. subst HasXattrs (sym e) h.attributes)
            (Ensures-Keeps (Keeps-truncate_inode HasXattrs-IsFramed ino n))))

  called-Holds :
      (x : Change) (f : File) (d : Db)
      → fs.read_only ≡ false
      → fs.max_size ≡ 0
      → IsLegal x
      → Holds ino f d
      → Succeeds (Is d) (called x) (λ u db. Holds ino (changed x f) db)
  called-Holds (writes offset bytes) f d w l legal h =
      Succeeds-bind (write-Holds offset bytes f d w l legal h) λ n. Succeeds-pure tt λ db q. q
  called-Holds (cuts n) f d w l legal h =
      Succeeds-map_err always_eio (truncate_inode-Holds n f d legal h)

  all_called-Holds :
      (xs : List Change) (f : File) (d : Db)
      → fs.read_only ≡ false
      → fs.max_size ≡ 0
      → All IsLegal xs
      → Holds ino f d
      → Succeeds (Is d) (all_called xs) (λ u db. (u ≡ tt) × Holds ino (all_changed xs f) db)
  unfolding all_called all_changed
  all_called-Holds [] f d w l legal h =
      Succeeds-pure tt λ db e. (refl, subst (Holds ino f) (sym e) h)
  all_called-Holds (x ∷ xs) f d w l legal h = Succeeds-bind (called-Holds x f d w l legal.0 h) λ u.
      record {
        at = λ c calm k. (all_called-Holds xs (changed x f) c.db w l legal.1 k).at c calm refl;
      }

  read_after :
      (f : File) (offset size : ℕ) (r : Result Errno (Unit {0})) (c : Conn)
      → offset < u64_mod
      → size < u32_mod
      → Done (λ u db. (u ≡ tt) × Holds ino f db) r c
      → (r ≡ ok tt) × ((read ino offset size c).0 ≡ ok (bytes_read offset size f))
  read_after f offset size (err e) c o k h = absurd h
  read_after f offset size (ok u) c o k ((e, h), calm) =
      let (row, r, s) = sized_row ino f.size c.db h.sized in
      (
        ap ok e,
        read_lem ino offset size row c calm r o k (omega (arith, s, h.small))
            ∙ ap (λ n. ok (bytes_from c.db.blocks ino offset (min (offset + size) n - offset))) s
            ∙ ap ok (
                tabulate_ext (min (offset + size) f.size - offset) _ _ λ j i. h.bytes (offset + j)),
      )

  -- Where no statement fails, on a writable mount without a limit: after any sequence of writes and
  -- truncations of a file, up to the largest size, each of which succeeds, `read` at any offset
  -- answers with the bytes that a plain array has after the same changes: writing covers the old
  -- bytes and may lengthen the file, cutting shortens or lengthens it, and gaps hold zeros. That the
  -- content is stored in blocks, with no block for zeros, cannot be seen.
  pub all_called-read :
      (xs : List Change) (f : File) (c : Conn) (offset size : ℕ)
      → Calm c
      → fs.read_only ≡ false
      → fs.max_size ≡ 0
      → All IsLegal xs
      → Holds ino f c.db
      → offset < u64_mod
      → size < u32_mod
      → ((all_called xs c).0 ≡ ok tt)
        × ((read ino offset size (all_called xs c).1).0
            ≡ ok (bytes_read offset size (all_changed xs f)))
  all_called-read xs f c offset size calm w l legal h o k =
      read_after (all_changed xs f) offset size (all_called xs c).0 (all_called xs c).1 o k
        ((all_called-Holds xs f c.db w l legal h).at c calm refl)
