-- ===== src/Fs/Steps.antt =====
-- How the steps that open a handler run.
use coffer_fs.Base.{suc, String, ◌≡◌, refl, Bool, true, false, some, err, if◌then◌else◌}
use coffer_fs.Sql.{Errno, erofs, Conn, Run, pure, fail, or_fail, ◌>>=◌, or_zero}
use coffer_fs.Fs.Schema.{CofferFs, utf8, touch, to_str}
use coffer_fs.Fs.Attr.{writable, named}

-- What `touch` leaves: the tables and the faults to come are as before.
abbrev pub touched : Conn → Conn
touched c = record c { last_activity = or_zero (c.clock 0); clock = λ n. c.clock (suc n) }

module _ {B : Type 0} where
  pub touch_then : (f : Unit {0} → Run Errno B) (c : Conn) → (touch >>= f) c ≡ f tt (touched c)
  unfolding touch ◌>>=◌
  touch_then f c = refl

  pub pure_then : {A : Type 0} (a : A) (f : A → Run Errno B) (c : Conn) → (pure a >>= f) c ≡ f a c
  unfolding ◌>>=◌
  pure_then a f c = refl

  pub fail_then :
      {A : Type 0} (e : Errno) (f : A → Run Errno B) (c : Conn) → (fail e >>= f) c ≡ (err e, c)
  unfolding ◌>>=◌
  fail_then e f c = refl

  pub or_fail_then :
      {A : Type 0} (a : A) (e : Errno) (f : A → Run Errno B) (c : Conn)
      → (or_fail (some a) e >>= f) c ≡ f a c
  unfolding ◌>>=◌
  or_fail_then a e f c = refl

  pub writable_then :
      (fs : CofferFs) (f : Unit {0} → Run Errno B) (c : Conn)
      → (writable fs >>= f) c ≡ (if fs.read_only then (err erofs, c) else f tt c)
  unfolding writable ◌>>=◌
  writable_then fs f c = by_flag fs.read_only
    where
      by_flag :
          (b : Bool)
          → ((if b then fail erofs else pure tt) >>= f) c ≡ (if b then (err erofs, c) else f tt c)
      by_flag true = refl
      by_flag false = refl

  pub named_then :
      (name : String) (f : String → Run Errno B) (c : Conn) → (named (utf8 name) >>= f) c ≡ f name c
  unfolding named ◌>>=◌ to_str
  named_then name f c = refl
