-- ===== src/Ipc/Place.antt =====
-- src/ipc.rs: where the socket is bound.
use Prim.Native.String.{◌++◌ as append}
use coffer_fs.Base.{
  ℕ, ◌≡◌, refl, ap, Bool, true, not, ◌||◌, String, List, [], ◌∷◌, ◌++◌, Result, ok, err, arith,
  ◌==◌, ==_iff, if◌then◌else◌, as_bytes, inl, inr, ◌⊎◌,
}
use coffer_fs.Db.Container.Decimal.{to_string}
use coffer_fs.Ipc.{socket_name}

pub data PlaceError : Type 0 where
  not_yours no_directory : PlaceError
  system : String → PlaceError

-- `run_is_dir` says whether /run/user/UID is a directory.
unfoldable pub candidate_dirs : ℕ → Bool → List String
candidate_dirs uid run_is_dir =
    let tmp = append "/tmp/coffer-" (to_string uid) ∷ [] in
    if run_is_dir then append "/run/user/" (append (to_string uid) "/coffer") ∷ tmp else tmp

pub data Created : Type 0 where
  created already_exists : Created
  not_created : String → Created

-- `symlink_metadata`: a link is no directory.
pub record Metadata : Type 0 where
  pub is_dir : Bool
  pub owner : ℕ

-- What the system does with a directory, and with a socket in it.
pub record Place : Type 0 where
  pub create_dir : Created
  pub metadata : Result String Metadata
  pub set_private : Result String (Unit {0})
  pub bind_socket : Result String (Unit {0})

abbrev pub then_place :
    {A B : Type 0} → Result String A → (A → Result PlaceError B) → Result PlaceError B
then_place (ok a) f = f a
then_place (err e) f = err (system e)

abbrev pub made : Created → Result String (Unit {0})
made created = ok tt
made already_exists = ok tt
made (not_created e) = err e

unfoldable pub ensure_private_dir : ℕ → Place → Result PlaceError (Unit {0})
ensure_private_dir uid p = then_place (made p.create_dir) λ _. then_place p.metadata λ md.
    if not md.is_dir || not (md.owner == uid)
    then err not_yours
    else then_place p.set_private λ _. ok tt

abbrev pub socket_path : String → List ℕ → List ℕ
socket_path dir container = as_bytes dir ++ (47 ∷ socket_name container)

-- The loop of `bind`: the first directory that serves, or the last error.
abbrev pub tried :
    Result PlaceError (Unit {0})
    → Result String (Unit {0})
    → List ℕ
    → (PlaceError → Result PlaceError (List ℕ))
    → Result PlaceError (List ℕ)
tried (err e) b path rest = rest e
tried (ok u) (err e) path rest = rest (system e)
tried (ok u) (ok v) path rest = ok path

unfoldable pub bind_in :
    ℕ → (String → Place) → List ℕ → List String → PlaceError → Result PlaceError (List ℕ)
unfolding ensure_private_dir
bind_in uid place container [] last_err = err last_err
bind_in uid place container (dir ∷ dirs) last_err =
    tried (ensure_private_dir uid (place dir)) (place dir).bind_socket (socket_path dir container)
      (bind_in uid place container dirs)

unfoldable pub bind : ℕ → Bool → (String → Place) → List ℕ → Result PlaceError (List ℕ)
unfolding bind_in candidate_dirs
bind uid run_is_dir place container =
    bind_in uid place container (candidate_dirs uid run_is_dir) no_directory

-- A directory, and no link, that the user owns and that is closed to all others.
pub record IsPrivate (uid : ℕ) (p : Place) : Type 0 where
  pub metadata : Metadata
  pub seen : p.metadata ≡ ok metadata
  pub is_dir : metadata.is_dir ≡ true
  pub own : metadata.owner ≡ uid
  pub closed : p.set_private ≡ ok tt

owned_dir :
    (uid : ℕ) (p : Place) (md : Metadata) (s : Result String (Unit {0}))
    → p.metadata ≡ ok md
    → p.set_private ≡ s
    → (if not md.is_dir || not (md.owner == uid) then err not_yours else then_place s λ _. ok tt)
      ≡ ok tt
    → IsPrivate uid p
owned_dir uid p md (err e) m k h = absurd (ground arith)
owned_dir uid p md (ok u) m k h = record {
  metadata = md;
  seen = m;
  is_dir = ground arith;
  own = (==_iff md.owner uid).0 (ground arith);
  closed = k;
}

ensure_private_dir-IsPrivate :
    (uid : ℕ) (p : Place) → ensure_private_dir uid p ≡ ok tt → IsPrivate uid p
unfolding ensure_private_dir
ensure_private_dir-IsPrivate uid p h = cases (made p.create_dir) p.metadata refl h
  where
    cases :
        (c : Result String (Unit {0})) (m : Result String Metadata)
        → p.metadata ≡ m
        → (then_place c λ _. then_place m λ md.
            if not md.is_dir || not (md.owner == uid)
            then err not_yours
            else then_place p.set_private λ _. ok tt)
          ≡ ok tt
        → IsPrivate uid p
    cases (err e) m k h = absurd (ground arith)
    cases (ok u) (err e) k h = absurd (ground arith)
    cases (ok u) (ok md) k h = owned_dir uid p md p.set_private k refl h

-- Where a socket is bound.
pub record Bound (uid : ℕ) (place : String → Place) (container : List ℕ) (dirs : List String)
    (path : List ℕ) : Type 0 where
  pub before : List String
  pub dir : String
  pub behind : List String
  pub listed : dirs ≡ before ++ (dir ∷ behind)
  pub named : path ≡ socket_path dir container
  pub private_dir : IsPrivate uid (place dir)
  pub bound : (place dir).bind_socket ≡ ok tt

module _ (uid : ℕ) (place : String → Place) (container : List ℕ) where
  tried_cases :
      (r : Result PlaceError (Unit {0})) (b : Result String (Unit {0})) (path here : List ℕ)
      (rest : PlaceError → Result PlaceError (List ℕ))
      → tried r b here rest ≡ ok path
      → ((r ≡ ok tt) × (b ≡ ok tt) × (path ≡ here)) ⊎ ((e : PlaceError) × (rest e ≡ ok path))
  tried_cases (err e) b path here rest h = inr (e, h)
  tried_cases (ok u) (err e) path here rest h = inr (system e, h)
  tried_cases (ok u) (ok v) path here rest h = inl (refl, refl, ground arith)

  bind_in-Bound :
      (dirs : List String) (e : PlaceError) (path : List ℕ)
      → bind_in uid place container dirs e ≡ ok path
      → Bound uid place container dirs path
  unfolding bind_in
  bind_in-Bound [] e path h = absurd (ground arith)
  bind_in-Bound (dir ∷ dirs) e path h =
      elim (tried_cases (ensure_private_dir uid (place dir)) (place dir).bind_socket path
        (socket_path dir container) (bind_in uid place container dirs) h) [
          | inl (p, b, s) ↦ record {
            before = [];
            dir = dir;
            behind = dirs;
            listed = refl;
            named = s;
            private_dir = ensure_private_dir-IsPrivate uid (place dir) p;
            bound = b;
          }
          | inr (last, k) ↦
              (let r = bind_in-Bound dirs last path k in
                record {
                  before = dir ∷ r.before;
                  dir = r.dir;
                  behind = r.behind;
                  listed = ap (λ ds. dir ∷ ds) r.listed;
                  named = r.named;
                  private_dir = r.private_dir;
                  bound = r.bound;
                })
        ]

-- A socket is bound only in one of the candidate directories, under the name of its container, and
-- only where that is a directory, not a link, that the user owns and that was closed to all others.
pub bind-Bound :
    (uid : ℕ) (run_is_dir : Bool) (place : String → Place) (container path : List ℕ)
    → bind uid run_is_dir place container ≡ ok path
    → Bound uid place container (candidate_dirs uid run_is_dir) path
unfolding bind
bind-Bound uid run_is_dir place container path h =
    bind_in-Bound uid place container (candidate_dirs uid run_is_dir) no_directory path h
