-- ===== src/Sql.antt =====
-- The connection that src/fs.rs holds (`con`, with `last_activity` beside it) and the steps that it
-- takes: every statement, BEGIN and COMMIT included, may fail with an error of SQLite, and
-- leaves the tables alone when it does. `faults` says at which of the coming statements that
-- happens, and `clock` what the system clock shows at each coming reading.
pub mod Rules
pub mod Calm
pub mod Total
pub mod Atomic
use coffer_fs.Base.{ℕ, suc, Option, none, some, Result, ok, err}
use coffer_fs.Db.{Db}

-- The codes of `rusqlite::Error` that the program tells apart.
pub data SqlError : Type 0 where
  disk_full busy constraint no_such_table failure : SqlError

pub data Errno : Type 0 where
  enoent eexist einval eio erofs enospc enotempty ebusy eperm efbig erange e2big enodata enotsup :
      Errno

-- A clock reading is `none` before 1970.
pub record Conn : Type 0 where
  pub db : Db
  pub last_activity : ℕ
  pub clock : ℕ → Option ℕ
  pub faults : ℕ → Option SqlError

abbrev pub Run : Type 0 → Type 0 → Type 0
Run E A = Conn → Result E A × Conn

module _ {E A : Type 0} where
  unfoldable pub pure : A → Run E A
  pure a c = (ok a, c)

  unfoldable pub fail : E → Run E A
  fail e c = (err e, c)

  -- Reads what the code holds in memory, with no statement.
  unfoldable pub lift : Result E A → Run E A
  lift r c = (r, c)

  -- `match o { Some(a) => a, None => { reply.error(e); return } }`
  unfoldable pub or_fail : Option A → E → Run E A
  or_fail none e c = (err e, c)
  or_fail (some a) e c = (ok a, c)

module _ {E F A : Type 0} where
  abbrev pub rename_error : (E → F) → Result E A → Result F A
  rename_error f (ok a) = ok a
  rename_error f (err e) = err (f e)

  -- `Err(e) => { reply.error(f(e)); return }`
  unfoldable pub map_err : (E → F) → Run E A → Run F A
  map_err f m c = let (r, c') = m c in (rename_error f r, c')

  -- The result as a value, for code that looks at it and goes on.
  unfoldable pub attempt : Run E A → Run F (Result E A)
  attempt m c = let (r, c') = m c in (ok r, c')

module _ {E A B : Type 0} where
  abbrev pub continue : Result E A → (A → Run E B) → Run E B
  continue (ok a) f c = f a c
  continue (err e) f c = (err e, c)

  infixl 5 ◌>>=◌ ◌>>◌
  -- To open this is to open the other steps too.
  unfoldable pub ◌>>=◌ : Run E A → (A → Run E B) → Run E B
  unfolding pure fail lift or_fail map_err attempt
  ◌>>=◌ m f c = let (r, c') = m c in continue r f c'

  abbrev pub ◌>>◌ : Run E A → Run E B → Run E B
  m >> k = m >>= λ _. k

-- One statement: it fails, or it reads the tables and replaces them.
abbrev pub tick : Conn → Conn
tick c = record c { faults = λ n. c.faults (suc n) }

abbrev pub ran : {A : Type 0} → Conn → Result SqlError (A × Db) → Result SqlError A × Conn
ran c (ok (a, db)) = (ok a, record c { db = db })
ran c (err e) = (err e, c)

unfoldable pub statement : {A : Type 0} → (Db → Result SqlError (A × Db)) → Run SqlError A
statement s c = elim (c.faults 0) [ some e ↦ (err e, tick c) | none ↦ ran (tick c) (s c.db) ]

abbrev pub query : {A : Type 0} → (Db → A) → Run SqlError A
query f = statement (λ db. ok (f db, db))

abbrev pub execute : (Db → Db) → Run SqlError (Unit {0})
execute f = statement (λ db. ok (tt, f db))

abbrev pub or_zero : Option ℕ → ℕ
or_zero none = 0
or_zero (some t) = t

-- src/db.rs `now_secs`: a clock that is set before 1970 reads 0.
unfoldable pub now_secs : {E : Type 0} → Run E ℕ
now_secs c = (ok (or_zero (c.clock 0)), record c { clock = λ n. c.clock (suc n) })

-- `con.transaction()` … `tx.commit()`: an error return drops the transaction, which rolls it back.
module _ {A : Type 0} where
  abbrev pub commit_at :
      (SqlError → Errno) → Db → A → Conn → Option SqlError → Result Errno A × Conn
  commit_at on_commit before a c (some e) =
      (err (on_commit e), record c { faults = λ n. c.faults (suc n); db = before })
  commit_at on_commit before a c none = (ok a, tick c)

  abbrev commit : (SqlError → Errno) → Db → A → Conn → Result Errno A × Conn
  commit on_commit before a c = commit_at on_commit before a c (c.faults 0)

  abbrev settle : (SqlError → Errno) → Db → Result Errno A → Conn → Result Errno A × Conn
  settle on_commit before (ok a) c = commit on_commit before a c
  settle on_commit before (err e) c = (err e, record c { db = before })

  abbrev begun : (SqlError → Errno) → Run Errno A → Run Errno A
  begun on_commit body c = let (r, c') = body c in settle on_commit c.db r c'

  unfoldable pub transaction : (SqlError → Errno) → Run Errno A → Run Errno A
  transaction on_commit body c = elim (c.faults 0) [
    | some e ↦ (err eio, tick c)
    | none ↦ begun on_commit body (tick c)
  ]

abbrev pub always_eio : SqlError → Errno
always_eio e = eio
