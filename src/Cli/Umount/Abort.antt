-- ===== src/Cli/Umount/Abort.antt =====
-- src/main.rs: which FUSE connections `umount` aborts.
use coffer_fs.Base.{
  ℕ, ◌≡◌, refl, bind-ok, ap, ◌∙◌, Bool, true, false, Option, none, some, String, List, [], ◌∷◌, ok,
  err, arith, if◌then◌else◌, inl, inr, ◌⊎◌, Bool-cases,
}
use coffer_fs.Base.Words.{lines}
use coffer_fs.Ipc.Request.{bytes_eq}
use coffer_fs.Ipc.Request.Sound.{bytes_eq_sound}
use coffer_fs.Cli.Mounts.{
  mount_entry, onto_found, found_in, coffer_mounts, last_id, fuse_connection_id,
}
use coffer_fs.Cli.Mounts.Entries.{Shows, mount_entry-Shows}
use coffer_fs.Cli.Options.{not_mounted, Env}
use coffer_fs.Cli.Umount.{
  System, Unmounted, after_lazy, after_plain, run_unmount, cmd_umount, target_mountpoint,
  at_mountpoint,
}

-- An element with this property.
abbrev pub Some : {A : Type 0} → (A → Type 0) → List A → Type 0
Some P [] = ⊥
Some P (x ∷ xs) = P x ⊎ Some P xs

abbrev Mount : Type 0
Mount = List ℕ × ℕ

last_id-Some :
    (found : Option ℕ) (target : List ℕ) (ms : List Mount) (id : ℕ)
    → last_id found target ms ≡ some id
    → (found ≡ some id) ⊎ Some (λ m. ◌≡◌ {A = Mount} m (target, id)) ms
last_id-Some found target [] id h = inl h
last_id-Some found target ((mp, i) ∷ ms) id h = elim (Bool-cases (bytes_eq mp target)) [
  | inl e ↦
      (let k : last_id (some i) target ms ≡ some id = rw e at h in
        here e (last_id-Some (some i) target ms id k))
  | inr e ↦
      (let k : last_id found target ms ≡ some id = rw e at h in
        there (last_id-Some found target ms id k))
]
  where
    at : bytes_eq mp target ≡ true → some i ≡ some id → ◌≡◌ {A = Mount} (mp, i) (target, id)
    at e k = ground (arith, bytes_eq_sound mp target e, k)

    here :
        bytes_eq mp target ≡ true
        → (some i ≡ some id) ⊎ Some (λ m. ◌≡◌ {A = Mount} m (target, id)) ms
        → (found ≡ some id) ⊎ Some (λ m. ◌≡◌ {A = Mount} m (target, id)) ((mp, i) ∷ ms)
    here e (inl k) = inr (inl (at e k))
    here e (inr s) = inr (inr s)

    there :
        (found ≡ some id) ⊎ Some (λ m. ◌≡◌ {A = Mount} m (target, id)) ms
        → (found ≡ some id) ⊎ Some (λ m. ◌≡◌ {A = Mount} m (target, id)) ((mp, i) ∷ ms)
    there (inl k) = inl k
    there (inr s) = inr (inr s)

module _ (lossy : List ℕ → List ℕ) where
  onto_found-Some :
      (m : Mount) (l : String) (o : Option Mount) (ls : List String)
      → mount_entry lossy l ≡ o
      → (Some (λ x. x ≡ m) (found_in lossy ls) → Some (Shows lossy m.0 m.1) ls)
      → Some (λ x. x ≡ m) (onto_found o (found_in lossy ls))
      → Some (Shows lossy m.0 m.1) (l ∷ ls)
  onto_found-Some m l none ls e ih h = inr (ih h)
  onto_found-Some m l (some x) ls e ih (inl k) =
      inl (mount_entry-Shows lossy l m.0 m.1 (e ∙ ap some k))
  onto_found-Some m l (some x) ls e ih (inr s) = inr (ih s)

  found_in-Some :
      (m : Mount) (ls : List String)
      → Some (λ x. x ≡ m) (found_in lossy ls)
      → Some (Shows lossy m.0 m.1) ls
  unfolding found_in
  found_in-Some m [] h = h
  found_in-Some m (l ∷ ls) h =
      onto_found-Some m l (mount_entry lossy l) ls refl (found_in-Some m ls) h

  -- A connection that is found belongs to a line of the table, with this mountpoint.
  connection_shown :
      (info : Option String) (key : Option (List ℕ)) (id : ℕ)
      → fuse_connection_id lossy info key ≡ some id
      → (text : String) × (target : List ℕ) × (info ≡ some text)
        × (key ≡ some target)
        × Some (Shows lossy target id) (lines text)
  unfolding fuse_connection_id coffer_mounts
  connection_shown info none id h = cc
  connection_shown none (some target) id h = cc
  connection_shown (some text) (some target) id h =
      listed (last_id-Some none target (found_in lossy (lines text)) id h)
    where
      listed :
          (none ≡ some id)
            ⊎ Some (λ m. ◌≡◌ {A = Mount} m (target, id)) (found_in lossy (lines text))
          → (t : String) × (g : List ℕ) × (some text ≡ some t)
            × (some target ≡ some g)
            × Some (Shows lossy g id) (lines t)
      listed (inl k) = cc
      listed (inr s) = (text, target, refl, refl, found_in-Some (target, id) (lines text) s)

  -- What stands behind an aborted connection.
  pub record Aborts (sys : System) (mountpoint : String) (id : ℕ) : Type 0 where
    pub text : String
    pub target : List ℕ
    pub readable : sys.mountinfo ≡ some text
    pub key : sys.mount_key mountpoint ≡ some target
    pub own : Some (Shows lossy target id) (lines text)
    pub busy : sys.plain ≡ ok false
    pub detached : sys.lazy ≡ ok true

  aborted_lazily :
      (sys : System) (mountpoint : String) (u : Unmounted) (id : ℕ) (l : Bool)
      → sys.plain ≡ ok false
      → sys.lazy ≡ ok l
      → after_lazy (fuse_connection_id lossy sys.mountinfo (sys.mount_key mountpoint)) l ≡ u
      → u.aborted ≡ some id
      → Aborts sys mountpoint id
  aborted_lazily sys mountpoint u id false ep el eu a =
      absurd (ground (arith, ap (λ x. x.aborted) eu, a))
  aborted_lazily sys mountpoint u id true ep el eu a =
      let (text, target, r, key, s) =
        connection_shown sys.mountinfo (sys.mount_key mountpoint) id (ap (λ x. x.aborted) eu ∙ a) in
      record {
        text = text;
        target = target;
        readable = r;
        key = key;
        own = s;
        busy = ep;
        detached = el;
      }

  after_plain-Aborts :
      (sys : System) (mountpoint : String) (u : Unmounted) (id : ℕ) (p : Bool)
      → sys.plain ≡ ok p
      → after_plain (fuse_connection_id lossy sys.mountinfo (sys.mount_key mountpoint)) sys.lazy p
        ≡ ok u
      → u.aborted ≡ some id
      → Aborts sys mountpoint id
  after_plain-Aborts sys mountpoint u id true ep h a = absurd (ground (arith, h, a))
  after_plain-Aborts sys mountpoint u id false ep h a =
      let (l, el, k) = bind-ok sys.lazy _ h in
      let eu : after_lazy (fuse_connection_id lossy sys.mountinfo (sys.mount_key mountpoint)) l
          ≡ u =
        ground (arith, k) in
      aborted_lazily sys mountpoint u id l ep el eu a

  run_unmount-Aborts :
      (sys : System) (mountpoint : String) (u : Unmounted) (id : ℕ)
      → run_unmount lossy sys mountpoint ≡ ok u
      → u.aborted ≡ some id
      → Aborts sys mountpoint id
  unfolding run_unmount
  run_unmount-Aborts sys mountpoint u id h a =
      let (p, ep, k) = bind-ok sys.plain _ h in after_plain-Aborts sys mountpoint u id p ep k a

  unmounts :
      (sys : System) (b : Bool) (mountpoint : String) (u : Unmounted)
      → (if b then run_unmount lossy sys mountpoint else err not_mounted) ≡ ok u
      → run_unmount lossy sys mountpoint ≡ ok u
  unmounts sys true mountpoint u h = h
  unmounts sys false mountpoint u h = cc

  -- `umount` aborts a connection only where the plain attempt to unmount failed and the lazy one did
  -- not, and only one that a line of the mount table shows: its mountpoint is the very one asked for,
  -- its device has the number of the connection, its type is `fuse` or begins with `fuse.`, and its
  -- source is `coffer`, so that nobody else's FUSE mount is cut off.
  pub cmd_umount-Aborts :
      (sys : System) (env : Env) (target : Option String) (u : Unmounted) (id : ℕ)
      → cmd_umount lossy sys env target ≡ ok u
      → u.aborted ≡ some id
      → (mountpoint : String) × (target_mountpoint lossy sys env target ≡ ok mountpoint)
        × Aborts sys mountpoint id
  unfolding cmd_umount
  cmd_umount-Aborts sys env target u id h a =
      let (mp, e, k) = bind-ok (target_mountpoint lossy sys env target) _ h in
      let r = unmounts sys (at_mountpoint lossy sys mp) mp u k in
      (mp, e, run_unmount-Aborts sys mp u id r a)
