-- ===== src/Fs/Xattrs/RoundTrip.antt =====
-- `setxattr`, then `getxattr` of src/fs.rs.
use coffer_fs.Base.{
  ℕ, ◌≤◌, ◌<◌, ◌≡◌, ◌≢◌, refl, ap, ◌∙◌, sym, String, true, false, ◌&&◌, ◌||◌, Option, none, some,
  List, arith, Result, ok, err, ltb, ◌==◌, str_eq, eq_iff, length, inl, inr, Bool-cases, ==_refl,
  [], ◌∷◌,
}
use Prim.Native.String.{len}
use coffer_fs.Db.{Db, Xattr}
use coffer_fs.Db.Rows.{find_xattr, is_xattr, without_xattr}
use coffer_fs.Sql.{
  Errno, enoent, erange, Conn, always_eio, ◌>>=◌, ◌>>◌, or_fail, map_err, statement, execute,
  now_secs,
}
use coffer_fs.Sql.Calm.{Calm}
use coffer_fs.Sql.Total.{
  Is, Done, Succeeds, Succeeds-pure, Succeeds-or_fail, Succeeds-if, Succeeds-bind, Succeeds-query,
  Succeeds-execute, Succeeds-statement, Succeeds-now_secs, Succeeds-map_err, Succeeds-transaction,
  Succeeds-given,
}
use coffer_fs.Fs.Schema.{
  CofferFs, InodeRow, utf8, to_str, touch, row_by_ino, select_row, xattr_name_max, xattr_size_max,
}
use coffer_fs.Fs.Inodes.{set_columns, set_ctime, has_bit}
use coffer_fs.Fs.Attr.{named, reply_xattr, sized, bytes}
use coffer_fs.Fs.Xattrs.{
  on_xattrs, put_xattr, check_flags, xattr_create, xattr_replace, setxattr, getxattr, is_some,
}
use coffer_fs.Fs.Content.Succeeding.{Succeeds-touch, Succeeds-writable}

xattr_key : (i : ℕ) (n : String) (x : Xattr) → is_xattr i n x ≡ true → (x.ino ≡ i) × (x.name ≡ n)
xattr_key i n x e = ground (arith, eq_iff x.name n)

other_key :
    (i : ℕ) (n : String) (j : ℕ) (m : String) (x : Xattr)
    → (i ≡ j → n ≢ m)
    → is_xattr i n x ≡ true
    → is_xattr j m x ≡ false
other_key i n j m x h e = elim (Bool-cases (is_xattr j m x)) [
  | inl k ↦
      (let a = xattr_key i n x e in
        let b = xattr_key j m x k in absurd (h (sym a.0 ∙ b.0) (sym a.1 ∙ b.1)))
  | inr k ↦ k
]

find_xattr-without_other :
    (i : ℕ) (n : String) (j : ℕ) (m : String) (rows : List Xattr)
    → (i ≡ j → n ≢ m)
    → find_xattr j m (without_xattr i n rows) ≡ find_xattr j m rows
unfolding find_xattr
find_xattr-without_other i n j m [] h = refl
find_xattr-without_other i n j m (x ∷ xs) h =
    ground (arith, find_xattr-without_other i n j m xs h, other_key i n j m x h)

find_xattr-put_other :
    (i : ℕ) (n : String) (value : List ℕ) (j : ℕ) (m : String) (rows : List Xattr)
    → (i ≡ j → n ≢ m)
    → find_xattr j m (put_xattr i n value rows) ≡ find_xattr j m rows
unfolding find_xattr
find_xattr-put_other i n value j m rows h =
    rw (other_key i n j m (record { ino = i; name = n; value = value }) h self)
      (find_xattr-without_other i n j m rows h)
  where
    self : (i == i && str_eq n n) ≡ true
    self = rw (==_refl i, (eq_iff n n).1 refl) refl

find_xattr-put_same :
    (i : ℕ) (n : String) (value : List ℕ) (rows : List Xattr)
    → find_xattr i n (put_xattr i n value rows) ≡ some value
unfolding find_xattr
find_xattr-put_same i n value rows = rw (==_refl i, (eq_iff n n).1 refl) refl

-- What XATTR_CREATE and XATTR_REPLACE ask.
abbrev pub Allowed : ℕ → Option (List ℕ) → Type 0
Allowed flags none = has_bit flags 2 ≡ false
Allowed flags (some old) = has_bit flags 1 ≡ false

check_flags-Allowed :
    {P : Db → Type 0} (flags : ℕ) (old : Option (List ℕ))
    → Allowed flags old
    → Succeeds P (check_flags flags (is_some old)) (λ _. P)
unfolding check_flags xattr_create xattr_replace
check_flags-Allowed flags none h = rw h (Succeeds-pure tt λ db p. p)
check_flags-Allowed flags (some old) h = rw h (Succeeds-pure tt λ db p. p)

module _ (fs : CofferFs) (ino : ℕ) (n : String) (value : List ℕ) (flags : ℕ) (row : InodeRow)
    (rows : List Xattr) (d : Db) where
  abbrev with_value : Db
  with_value = record d { xattrs = some (put_xattr ino n value rows) }

  abbrev looked_up : List Xattr → Option (List ℕ) × List Xattr
  looked_up rows = (find_xattr ino n rows, rows)

  abbrev put : List Xattr → Unit {0} × List Xattr
  put rows = (tt, put_xattr ino n value rows)

  -- The transaction.
  stores :
      select_row ino d ≡ some row
      → d.xattrs ≡ some rows
      → Allowed flags (find_xattr ino n rows)
      → Succeeds
          (Is d)
          (do
            found ← map_err always_eio (row_by_ino ino)
            row ← or_fail found enoent
            old ← map_err always_eio (statement (on_xattrs looked_up))
            check_flags flags (is_some old)
            now ← now_secs
            map_err always_eio (statement (on_xattrs put))
            map_err always_eio (execute (set_columns ino (set_ctime now))))
          (λ r db. (r ≡ tt) × (db.xattrs ≡ some (put_xattr ino n value rows)))
  unfolding row_by_ino on_xattrs
  stores e x allowed =
      Succeeds-bind {Q = λ o db. Is d db × (o ≡ some row)}
        (Succeeds-map_err always_eio
          (Succeeds-query (select_row ino) λ db p. (p, ap (select_row ino) p ∙ e)))
        λ o. Succeeds-given λ k.
          Succeeds-bind {Q = λ _. Is d} (Succeeds-or_fail o enoent row k λ db p. p) λ r.
            Succeeds-bind {Q = λ old db. Is d db × (old ≡ find_xattr ino n rows)}
              (Succeeds-map_err always_eio (
                Succeeds-statement _ λ db p. (
                  (find_xattr ino n rows, d),
                  ap (on_xattrs looked_up) p ∙ rw (x, on_xattrs) refl,
                  (refl, refl),
                )))
              λ old. Succeeds-given λ k.
                Succeeds-bind {Q = λ _. Is d}
                  (rw k (check_flags-Allowed flags (find_xattr ino n rows) allowed))
                  λ _. Succeeds-bind {Q = λ _. Is d} (Succeeds-now_secs λ t db p. p) λ now.
                    Succeeds-bind {Q = λ _. Is with_value}
                      (Succeeds-map_err always_eio (
                        Succeeds-statement _ λ db p.
                          ((tt, with_value), ap (on_xattrs put) p ∙ rw (x, on_xattrs) refl, refl)))
                      λ _.
                        Succeeds-map_err always_eio
                          (Succeeds-execute _ λ db p. (refl, ap (λ b. b.xattrs) p))

  setxattr-Succeeds :
      fs.read_only ≡ false
      → fs.has_xattrs ≡ true
      → 0 < len n
      → len n ≤ xattr_name_max
      → length value ≤ xattr_size_max
      → select_row ino d ≡ some row
      → d.xattrs ≡ some rows
      → Allowed flags (find_xattr ino n rows)
      → Succeeds
          (Is d)
          (setxattr fs ino (utf8 n) value flags)
          (λ r db. (r ≡ tt) × (db.xattrs ≡ some (put_xattr ino n value rows)))
  unfolding setxattr named to_str row_by_ino on_xattrs
  setxattr-Succeeds w has pos short small e x allowed = Succeeds-bind Succeeds-touch λ _.
      Succeeds-bind (Succeeds-writable fs w) λ _.
        Succeeds-bind {Q = λ _. Is d} (rw has (Succeeds-pure tt λ db p. p)) λ _.
          Succeeds-bind {Q = λ t db. Is d db × (t ≡ n)}
            (Succeeds-or_fail _ _ n refl λ db e. (e, refl))
            λ t. Succeeds-given λ k. rw k (
              Succeeds-bind {Q = λ _. Is d}
                (Succeeds-if (len n == 0 || ltb xattr_name_max (len n)) _ _
                  (λ b. absurd (ground arith)) (λ b. Succeeds-pure tt λ db p. p))
                λ _.
                  Succeeds-bind {Q = λ _. Is d}
                    (Succeeds-if (ltb xattr_size_max (length value)) _ _
                      (λ b. absurd (ground arith)) (λ b. Succeeds-pure tt λ db p. p))
                    λ _. Succeeds-transaction always_eio (stores e x allowed))

getxattr_lem :
    (fs : CofferFs) (ino : ℕ) (n : String) (value : List ℕ) (size : ℕ) (rows : List Xattr)
    (c : Conn)
    → fs.has_xattrs ≡ true
    → Calm c
    → c.db.xattrs ≡ some rows
    → find_xattr ino n rows ≡ some value
    → (getxattr fs ino (utf8 n) size c).0 ≡ reply_xattr size value
unfolding getxattr named to_str on_xattrs touch ◌>>=◌ statement
getxattr_lem fs ino n value size rows c has calm x f = rw (has, calm 0, x, f) refl

-- What a buffer of this size gets.
reply_no_buffer :
    (value : List ℕ)
    → length value ≤ xattr_size_max
    → reply_xattr 0 value ≡ ok (sized (length value))
unfolding reply_xattr
reply_no_buffer value h = ap (λ n. ok (sized n)) (omega arith)

reply_too_small :
    (size : ℕ) (value : List ℕ)
    → 0 < size
    → size < length value
    → reply_xattr size value ≡ err erange
unfolding reply_xattr
reply_too_small size value pos h = ground arith

reply_fits :
    (size : ℕ) (value : List ℕ)
    → 0 < size
    → length value ≤ size
    → reply_xattr size value ≡ ok (bytes value)
unfolding reply_xattr
reply_fits size value pos h = ground arith

-- What `setxattr` leaves, and what `getxattr` then answers.
pub record Stored (fs : CofferFs) (ino : ℕ) (n : String) (value : List ℕ) (rows : List Xattr)
    (c' : Conn) : Type 0 where
  pub whole :
      (size : ℕ)
      → 0 < size
      → length value ≤ size
      → (getxattr fs ino (utf8 n) size c').0 ≡ ok (bytes value)
  pub too_small :
      (size : ℕ)
      → 0 < size
      → size < length value
      → (getxattr fs ino (utf8 n) size c').0 ≡ err erange
  pub no_buffer : (getxattr fs ino (utf8 n) 0 c').0 ≡ ok (sized (length value))
  pub others :
      (j : ℕ) (m : String)
      → (ino ≡ j → n ≢ m)
      → (rows' : List Xattr) × (c'.db.xattrs ≡ some rows')
        × (find_xattr j m rows' ≡ find_xattr j m rows)

stored_lem :
    (fs : CofferFs) (ino : ℕ) (n : String) (value : List ℕ) (rows : List Xattr)
    (r : Result Errno (Unit {0})) (c' : Conn)
    → fs.has_xattrs ≡ true
    → length value ≤ xattr_size_max
    → Done (λ r db. (r ≡ tt) × (db.xattrs ≡ some (put_xattr ino n value rows))) r c'
    → (r ≡ ok tt) × Stored fs ino n value rows c'
stored_lem fs ino n value rows (ok a) c' has small ((e, x), calm) = (
  ap ok e,
  record {
    whole = λ size pos h. answer size ∙ reply_fits size value pos h;
    too_small = λ size pos h. answer size ∙ reply_too_small size value pos h;
    no_buffer = answer 0 ∙ reply_no_buffer value small;
    others = λ j m h. (put_xattr ino n value rows, x, find_xattr-put_other ino n value j m rows h);
  },
)
  where
    answer : (size : ℕ) → (getxattr fs ino (utf8 n) size c').0 ≡ reply_xattr size value
    answer size =
        getxattr_lem fs ino n value size (put_xattr ino n value rows) c' has calm x
          (find_xattr-put_same ino n value rows)
stored_lem fs ino n value rows (err e) c' has small h = absurd h

-- Where no statement fails, the mount is writable and the container has the table `xattrs`: for a
-- name of 1 to 255 bytes, a value of at most 65536, an inode that is there and flags that allow
-- it, `setxattr` succeeds. `getxattr` of the name then answers with the value, or with its length
-- where no buffer is given, or with ERANGE where the buffer is too small; every other attribute
-- of this inode and of the others is as before.
pub setxattr-getxattr :
    (fs : CofferFs) (ino : ℕ) (n : String) (value : List ℕ) (flags : ℕ) (row : InodeRow)
    (rows : List Xattr) (c : Conn)
    → Calm c
    → fs.read_only ≡ false
    → fs.has_xattrs ≡ true
    → 0 < len n
    → len n ≤ xattr_name_max
    → length value ≤ xattr_size_max
    → select_row ino c.db ≡ some row
    → c.db.xattrs ≡ some rows
    → Allowed flags (find_xattr ino n rows)
    → ((setxattr fs ino (utf8 n) value flags c).0 ≡ ok tt)
      × Stored fs ino n value rows (setxattr fs ino (utf8 n) value flags c).1
setxattr-getxattr fs ino n value flags row rows c calm w has pos short small e x allowed =
    stored_lem fs ino n value rows _ _ has small (
      (setxattr-Succeeds fs ino n value flags row rows c.db w has pos short small e x allowed).at c
        calm refl)
