-- ===== src/Fs/Consistency/Guards.antt =====
-- The guards and lookups that the handlers of src/fs.rs share.
use coffer_fs.Base.{ℕ, String, ◌≡◌, ◌∙◌, Bool, Option, none, some, if◌then◌else◌}
use coffer_fs.Db.{Db, Columns}
use coffer_fs.Db.Rows.{find_name}
use coffer_fs.Sql.{Errno, Run, pure, fail, always_eio, or_fail, map_err, ◌>>=◌, enoent}
use coffer_fs.Sql.Rules.{
  Ensures, Ensures-pure, Ensures-fail, Ensures-if, Ensures-or_fail, Ensures-map_err, Ensures-query,
  Keeps, Keeps-pure, Keeps-fail, Keeps-if, Keeps-map_err, Keeps-bind, Keeps-query,
}
use coffer_fs.Fs.Schema.{CofferFs, OsStr, touch, child_ino, has_children}
use coffer_fs.Fs.Inodes.{ensure_removable, removable}
use coffer_fs.Fs.Attr.{writable, named}
use coffer_fs.Fs.Entries.{absent}
use coffer_fs.Fs.Consistency.Frame.{Keeps-touch, Keeps-writable, Keeps-named}

-- A writing handler opens with `touch`, the read-only guard and the name.
module _ {P : Db → Type 0} {A : Type 0} (fs : CofferFs) where
  pub guarded : {m : Run Errno A} → Keeps P m → Keeps P (touch >>= λ _. writable fs >>= λ _. m)
  guarded h = Keeps-bind Keeps-touch λ _. Keeps-bind (Keeps-writable fs) λ _. h

  pub guarded_name :
      (name : OsStr) {f : String → Run Errno A}
      → ((text : String) → Keeps P (f text))
      → Keeps P (touch >>= λ _. writable fs >>= λ _. named name >>= f)
  guarded_name name h = guarded (Keeps-bind (Keeps-named name) h)

module _ {P : Db → Type 0} where
  -- A guard of a handler's body.
  pub check : (b : Bool) (e : Errno) → Ensures P (if b then fail e else pure tt) (λ _. P)
  check b e = Ensures-if b _ _ (λ _. Ensures-fail e) (λ _. Ensures-pure tt λ db p. p)

  pub absent_lem : (o : Option ℕ) → Keeps P (absent o)
  unfolding absent
  absent_lem none = Keeps-pure tt
  absent_lem (some x) = Keeps-fail _

  pub Keeps-ensure_removable : (ino : ℕ) → Keeps P (ensure_removable ino)
  unfolding ensure_removable has_children
  Keeps-ensure_removable ino = Keeps-bind (Keeps-map_err always_eio (Keeps-query _)) removable_lem
    where
      removable_lem : (o : Option Columns) → Keeps P (removable ino o)
      removable_lem none = Keeps-fail _
      removable_lem (some cols) =
          Keeps-if _ _ _
            (Keeps-bind (Keeps-map_err always_eio (Keeps-query _))
              λ c. Keeps-if c _ _ (Keeps-fail _) (Keeps-pure tt))
            (Keeps-pure tt)

  -- A lookup that succeeds tells which inode the name stands for.
  pub find_child :
      (p : ℕ) (n : String)
      → Ensures P
          (map_err always_eio (child_ino p n))
          (λ found db. P db × (find_name p n db.dentries ≡ found))
  unfolding child_ino
  find_child p n = Ensures-map_err always_eio (Ensures-query _)

  pub found_child :
      (p : ℕ) (n : String) (o : Option ℕ)
      → Ensures
          (λ db. P db × (find_name p n db.dentries ≡ o))
          (or_fail o enoent)
          (λ ino db. P db × (find_name p n db.dentries ≡ some ino))
  found_child p n o = Ensures-or_fail o enoent λ ino e db h. (h.0, h.1 ∙ e)
