-- ===== src/Ipc/Request/Sound.antt =====
-- src/ipc.rs: a request that `serve` accepts is one that `ask` sends.
use coffer_fs.Base.{
  ℕ, ◌≡◌, ◌≢◌, refl, ap, subst, ◌∙◌, sym, Bool, true, false, String, List, [], ◌∷◌, ◌++◌, ok, arith,
  ◌==◌, ==_iff, take, All, is_utf8, inl, inr, Bool-cases,
}
use coffer_fs.Ipc.Request.{
  Request, bytes_eq, split_nul, onto_field, encode_request, plain_verb, progress_verb, verb_of,
  is_absolute, checked, by_verb, of_fields, parse_request, request_limit, HasNoNul,
}

abbrev join_nul : List (List ℕ) → List ℕ
join_nul [] = []
join_nul (f ∷ []) = f
join_nul (f ∷ g ∷ gs) = f ++ (0 ∷ join_nul (g ∷ gs))

abbrev Clean : List (List ℕ) → Type 0
Clean [] = ⊥
Clean (f ∷ fs) = HasNoNul f × All HasNoNul fs

onto_field-Clean :
    (b : ℕ) (fs : List (List ℕ))
    → b ≢ 0
    → Clean fs
    → Clean (onto_field b fs) × (join_nul (onto_field b fs) ≡ b ∷ join_nul fs)
onto_field-Clean b [] h c = absurd c
onto_field-Clean b (f ∷ []) h c = (((h, c.0), c.1), refl)
onto_field-Clean b (f ∷ g ∷ gs) h c = (((h, c.0), c.1), refl)

new_field-Clean :
    (fs : List (List ℕ)) → Clean fs → Clean ([] ∷ fs) × (join_nul ([] ∷ fs) ≡ 0 ∷ join_nul fs)
new_field-Clean [] c = absurd c
new_field-Clean (f ∷ fs) c = ((tt, c), refl)

split_nul-Clean : (bs : List ℕ) → Clean (split_nul bs) × (join_nul (split_nul bs) ≡ bs)
unfolding split_nul
split_nul-Clean [] = ((tt, tt), refl)
split_nul-Clean (b ∷ bs) =
    let ih = split_nul-Clean bs in
    elim (Bool-cases (b == 0)) [
      | inl e ↦ rw e (
          let n = new_field-Clean (split_nul bs) ih.0 in
          (n.0, n.1 ∙ (λ i. sym ((==_iff b 0).0 e) i ∷ ih.1 i)))
      | inr e ↦ rw e (
          let n = onto_field-Clean b (split_nul bs) (ground (arith, ==_iff b 0)) ih.0 in
          (n.0, n.1 ∙ ap (λ r. b ∷ r) ih.1))
    ]

pub bytes_eq_sound : (bs cs : List ℕ) → bytes_eq bs cs ≡ true → bs ≡ cs
unfolding bytes_eq
bytes_eq_sound [] [] h = refl
bytes_eq_sound [] (c ∷ cs) h = cc
bytes_eq_sound (b ∷ bs) [] h = cc
bytes_eq_sound (b ∷ bs) (c ∷ cs) h = ground (arith, ==_iff b c, bytes_eq_sound bs cs)

-- What an accepted request holds.
abbrev pub Accepts : List (List ℕ) → Request → Type 0
Accepts fs r =
    (fs ≡ verb_of r.with_progress ∷ r.dest ∷ r.password ∷ [] ∷ [])
    × (is_absolute r.dest ≡ true)
    × (is_utf8 r.password ≡ true)

checked-Accepts :
    (e : String) (b : Bool) (v dest password : List ℕ) (r : Request)
    → v ≡ verb_of b
    → checked e b dest password ≡ ok r
    → Accepts (v ∷ dest ∷ password ∷ [] ∷ []) r
checked-Accepts e b v dest password r k h = elim (Bool-cases (is_absolute dest)) [
  | inl a ↦ elim (Bool-cases (is_utf8 password)) [
    | inl u ↦ ground (arith, (rw (a, u) at h))
    | inr u ↦ absurd (ground (arith, (rw (a, u) at h)))
  ]
  | inr a ↦ absurd (ground (arith, (rw a at h)))
]

by_verb-Accepts :
    (e : String) (v dest password : List ℕ) (r : Request)
    → by_verb e v dest password ≡ ok r
    → Accepts (v ∷ dest ∷ password ∷ [] ∷ []) r
by_verb-Accepts e v dest password r h = elim (Bool-cases (bytes_eq v plain_verb)) [
  | inl p ↦ checked-Accepts e false v dest password r (bytes_eq_sound v plain_verb p) (rw p at h)
  | inr p ↦ elim (Bool-cases (bytes_eq v progress_verb)) [
    | inl q ↦
        checked-Accepts e true v dest password r (bytes_eq_sound v progress_verb q) (rw (p, q) at h)
    | inr q ↦ absurd (ground (arith, (rw (p, q) at h)))
  ]
]

of_fields-Accepts :
    (e : String) (fs : List (List ℕ)) (r : Request) → of_fields e fs ≡ ok r → Accepts fs r
of_fields-Accepts e [] r h = cc
of_fields-Accepts e (v ∷ []) r h = cc
of_fields-Accepts e (v ∷ d ∷ []) r h = cc
of_fields-Accepts e (v ∷ d ∷ p ∷ []) r h = cc
of_fields-Accepts e (v ∷ d ∷ p ∷ [] ∷ []) r h = by_verb-Accepts e v d p r h
of_fields-Accepts e (v ∷ d ∷ p ∷ [] ∷ g ∷ gs) r h = cc
of_fields-Accepts e (v ∷ d ∷ p ∷ (b ∷ f) ∷ fs) r h = cc

-- What `serve` accepts, cut off at 64 KiB, is what `ask` sends for this destination and password:
-- an absolute path and a text, neither with a NUL in it.
pub parse_request_sound :
    (e : String) (sent : List ℕ) (r : Request)
    → parse_request e sent ≡ ok r
    → (take request_limit sent ≡ encode_request (verb_of r.with_progress) r.dest r.password)
      × HasNoNul r.dest
      × HasNoNul r.password
      × (is_absolute r.dest ≡ true)
      × (is_utf8 r.password ≡ true)
unfolding parse_request encode_request
parse_request_sound e sent r h =
    let a = of_fields-Accepts e (split_nul (take request_limit sent)) r h in
    let s = split_nul-Clean (take request_limit sent) in
    let c : Clean (verb_of r.with_progress ∷ r.dest ∷ r.password ∷ [] ∷ []) = subst Clean a.0 s.0 in
    (sym s.1 ∙ ap join_nul a.0, c.1.0, c.1.1.0, a.1, a.2)
