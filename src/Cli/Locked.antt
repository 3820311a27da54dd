-- ===== src/Cli/Locked.antt =====
-- src/main.rs: `passwd` and `compact`, which lock the container against every other writer.
use coffer_fs.Base.{
  ◌≡◌, refl, ap, ◌∙◌, ℕ, true, false, Option, none, String, List, [], ◌∷◌, Result, ok, err,
}
use coffer_fs.Cli.Passwords.{PasswordError, Sources, read_password_source}
use coffer_fs.Cli.Steps.{Traced, perform, step, ◌>>=◌, ◌>>◌}

-- `rekey` with the new password, which `pragma_key_sql` puts into the statement.
pub data Action : Type 0 where
  lock use_temp_dir read_password open_writable vacuum : Action
  rekey : List ℕ → Action

pub data LockedError : Type 0 where
  password : PasswordError → LockedError
  system : String → LockedError

-- How each call ends; the sources of the password, and those of the new one.
pub record Host : Type 0 where
  pub locked : Result LockedError (Unit {0})
  pub absolute : Result LockedError (Unit {0})
  pub sources : Sources
  pub new_sources : Sources
  pub opened : List ℕ → Result LockedError (Unit {0})
  pub rekeyed : List ℕ → Result LockedError (Unit {0})
  pub metadata : Result LockedError (Unit {0})
  pub vacuumed : Result LockedError (Unit {0})
  pub metadata_after : Result LockedError (Unit {0})

abbrev pub asked : Result PasswordError (List ℕ) → Result LockedError (List ℕ)
asked (ok pw) = ok pw
asked (err e) = err (password e)

abbrev pub Locked : Type 0 → Type 0
Locked = Traced Action LockedError

unfoldable pub cmd_passwd : Host → Option String → Option String → Option String → Locked (Unit {0})
unfolding read_password_source
cmd_passwd host password_file password_command new_password_file = do
  step lock host.locked
  current ←
      step read_password
        (asked (read_password_source host.sources password_file password_command false))
  step open_writable (host.opened current)
  new ←
      step read_password (asked (read_password_source host.new_sources new_password_file none true))
  step (rekey new) (host.rekeyed new)

unfoldable pub cmd_compact : Host → Option String → Option String → Locked (Unit {0})
unfolding read_password_source
cmd_compact host password_file password_command = do
  step lock host.locked
  perform host.absolute
  step use_temp_dir (ok tt)
  current ←
      step read_password
        (asked (read_password_source host.sources password_file password_command false))
  perform host.metadata
  step open_writable (host.opened current)
  step vacuum host.vacuumed
  perform host.metadata_after

step-ok :
    {A B : Type 0} (x : Action) (r : Result LockedError A) (f : A → Locked B) (b : B)
    → (step x r >>= f).1 ≡ ok b
    → (a : A) × (r ≡ ok a) × ((f a).1 ≡ ok b) × ((step x r >>= f).0 ≡ x ∷ (f a).0)
unfolding ◌>>=◌ step
step-ok x (err e) f b h = cc
step-ok x (ok a) f b h = (a, refl, h, refl)

-- What a password change that ends well has done.
pub record Changed (host : Host) (current new : Result PasswordError (List ℕ)) (trace : List Action)
    : Type 0 where
  pub old_password : List ℕ
  pub new_password : List ℕ
  pub known : asked current ≡ ok old_password
  pub confirmed : asked new ≡ ok new_password
  pub right : host.opened old_password ≡ ok tt
  pub order : trace ≡ lock ∷ read_password ∷ open_writable ∷ read_password ∷ rekey new_password ∷ []

-- Where `passwd` ends well, it has locked the container, opened it with the password that was given
-- for it, then read the new one and set that very password, in this order and nothing else.
pub cmd_passwd-Changed :
    (host : Host) (password_file password_command new_password_file : Option String)
    → (cmd_passwd host password_file password_command new_password_file).1 ≡ ok tt
    → Changed host
        (read_password_source host.sources password_file password_command false)
        (read_password_source host.new_sources new_password_file none true)
        (cmd_passwd host password_file password_command new_password_file).0
unfolding cmd_passwd step
cmd_passwd-Changed host pf pc npf h =
    let (u, e1, h1, t1) = step-ok lock host.locked _ tt h in
    let (old, e2, h2, t2) =
      step-ok read_password (asked (read_password_source host.sources pf pc false)) _ tt h1 in
    let (v, e3, h3, t3) = step-ok open_writable (host.opened old) _ tt h2 in
    let (new, e4, h4, t4) =
      step-ok read_password (asked (read_password_source host.new_sources npf none true)) _ tt h3 in
    record {
      old_password = old;
      new_password = new;
      known = e2;
      confirmed = e4;
      right = e3;
      order =
          t1
          ∙ ap (λ l. lock ∷ l)
              (t2 ∙ ap (λ l. read_password ∷ l) (t3 ∙ ap (λ l. open_writable ∷ l) t4));
    }
