-- ===== src/Sql/Calm.antt =====
-- Connections on which no statement fails: each step runs, and its result is what the tables say.
use coffer_fs.Base.{ℕ, suc, ◌≡◌, none, Result, ok}
use coffer_fs.Db.{Db}
use coffer_fs.Sql.{SqlError, Errno, Conn, Run, map_err, attempt, ◌>>=◌, ran, tick, statement, query}

-- No statement fails from here on.
abbrev pub Calm : Conn → Type 0
Calm c = (n : ℕ) → c.faults n ≡ none

pub Calm-tick : (c : Conn) → Calm c → Calm (tick c)
Calm-tick c calm n = calm (suc n)

module _ {A : Type 0} where
  pub statement-Calm :
      (s : Db → Result SqlError (A × Db)) (c : Conn)
      → Calm c
      → statement s c ≡ ran (tick c) (s c.db)
  unfolding statement
  statement-Calm s c calm = rw (calm 0, statement)

  -- The same, inside a longer run.
  pub query_then :
      {B : Type 0} (q : Db → A) (f : Result SqlError A → Run Errno B) (c : Conn)
      → Calm c
      → (attempt (query q) >>= f) c ≡ f (ok (q c.db)) (tick c)
  unfolding ◌>>=◌ statement
  query_then q f c calm = rw (calm 0, statement)

  pub or_error_then :
      {B : Type 0} (g : SqlError → Errno) (q : Db → A) (f : A → Run Errno B) (c : Conn)
      → Calm c
      → (map_err g (query q) >>= f) c ≡ f (q c.db) (tick c)
  unfolding ◌>>=◌ statement
  or_error_then g q f c calm = rw (calm 0, statement)
