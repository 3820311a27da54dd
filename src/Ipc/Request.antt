-- ===== src/Ipc/Request.antt =====
-- src/ipc.rs: the request of a backup, as `ask` sends it and as `serve` takes it apart.
pub mod Sound
use coffer_fs.Base.{
  ℕ, zero, suc, ◌+◌, ◌≤◌, ◌≡◌, ◌≢◌, refl, ap, ◌∙◌, sym, Bool, true, false, ◌&&◌, not, String, List,
  [], ◌∷◌, ◌++◌, Result, ok, err, arith, ◌==◌, ==_iff, ==_refl, if◌then◌else◌, length,
  length-append, take, All, as_bytes, is_utf8, inl, inr, Bool-cases,
}

-- `failure` carries the text of an error from the system or from SQLite.
pub data IpcError : Type 0 where
  refused malformed relative wrong_password : IpcError
  failure : String → IpcError

pub record Request : Type 0 where
  pub with_progress : Bool
  pub dest : List ℕ
  pub password : List ℕ

unfoldable pub bytes_eq : List ℕ → List ℕ → Bool
bytes_eq [] [] = true
bytes_eq [] (c ∷ cs) = false
bytes_eq (b ∷ bs) [] = false
bytes_eq (b ∷ bs) (c ∷ cs) = b == c && bytes_eq bs cs

abbrev pub onto_field : ℕ → List (List ℕ) → List (List ℕ)
onto_field b [] = []
onto_field b (f ∷ fs) = (b ∷ f) ∷ fs

-- `req.split(|b| *b == 0)`
unfoldable pub split_nul : List ℕ → List (List ℕ)
split_nul [] = [] ∷ []
split_nul (b ∷ bs) = let rest = split_nul bs in if b == 0 then [] ∷ rest else onto_field b rest

unfoldable pub encode_request : List ℕ → List ℕ → List ℕ → List ℕ
encode_request verb dest password = verb ++ (0 ∷ (dest ++ (0 ∷ (password ++ (0 ∷ [])))))

abbrev pub plain_verb : List ℕ
plain_verb = as_bytes "backup"

abbrev pub progress_verb : List ℕ
progress_verb = as_bytes "backup-progress"

abbrev pub verb_of : Bool → List ℕ
verb_of true = progress_verb
verb_of false = plain_verb

-- `Path::is_absolute`
abbrev pub is_absolute : List ℕ → Bool
is_absolute [] = false
is_absolute (b ∷ bs) = b == 47

abbrev pub checked : String → Bool → List ℕ → List ℕ → Result IpcError Request
checked utf8_error with_progress dest password =
    if not (is_absolute dest)
    then err relative
    else if is_utf8 password
    then ok (record { with_progress = with_progress; dest = dest; password = password })
    else err (failure utf8_error)

abbrev pub by_verb : String → List ℕ → List ℕ → List ℕ → Result IpcError Request
by_verb utf8_error verb dest password =
    if bytes_eq verb plain_verb
    then checked utf8_error false dest password
    else if bytes_eq verb progress_verb
    then checked utf8_error true dest password
    else err malformed

-- `let [verb, dest, password, b""] = fields.as_slice()`
abbrev pub of_fields : String → List (List ℕ) → Result IpcError Request
of_fields utf8_error (verb ∷ dest ∷ password ∷ [] ∷ []) = by_verb utf8_error verb dest password
of_fields utf8_error _ = err malformed

abbrev pub request_limit : ℕ
request_limit = 65536

-- `stream.take(64 * 1024).read_to_end(…)` and the checks behind it.
unfoldable pub parse_request : String → List ℕ → Result IpcError Request
unfolding split_nul bytes_eq
parse_request utf8_error sent = of_fields utf8_error (split_nul (take request_limit sent))

abbrev pub HasNoNul : List ℕ → Type 0
HasNoNul = All (λ b. b ≢ 0)

split_nul-field : (f rest : List ℕ) → HasNoNul f → split_nul (f ++ (0 ∷ rest)) ≡ f ∷ split_nul rest
unfolding split_nul
split_nul-field [] rest h = refl
split_nul-field (b ∷ f) rest h = ground (arith, ==_iff b 0, split_nul-field f rest h.1)

pub take_all {ℓ} : {A : Type ℓ} (n : ℕ) (xs : List A) → length xs ≤ n → take n xs ≡ xs
take_all zero [] h = refl
take_all zero (x ∷ xs) h = absurd (omega arith)
take_all (suc n) [] h = refl
take_all (suc n) (x ∷ xs) h = ap (λ ys. x ∷ ys) (take_all n xs (omega arith))

verb_of-HasNoNul : (b : Bool) → HasNoNul (verb_of b)
unfolding as_bytes
verb_of-HasNoNul true = omega arith
verb_of-HasNoNul false = omega arith

pub split_nul-encode_request :
    (verb dest password : List ℕ)
    → HasNoNul verb
    → HasNoNul dest
    → HasNoNul password
    → split_nul (encode_request verb dest password) ≡ verb ∷ dest ∷ password ∷ [] ∷ []
unfolding encode_request split_nul
split_nul-encode_request verb dest password v d p =
    split_nul-field verb (dest ++ (0 ∷ (password ++ (0 ∷ [])))) v
    ∙ ap (λ fs. verb ∷ fs)
        (split_nul-field dest (password ++ (0 ∷ [])) d
          ∙ ap (λ fs. dest ∷ fs) (split_nul-field password [] p))

pub by_verb-verb_of :
    (utf8_error : String) (b : Bool) (dest password : List ℕ)
    → by_verb utf8_error (verb_of b) dest password ≡ checked utf8_error b dest password
unfolding as_bytes bytes_eq
by_verb-verb_of utf8_error true dest password = refl
by_verb-verb_of utf8_error false dest password = refl

-- A request that fits 64 KiB, with an absolute destination, a password that is a text, and no NUL
-- in either, is read by the daemon as the client meant it.
pub parse_request-encode_request :
    (utf8_error : String) (b : Bool) (dest password : List ℕ)
    → HasNoNul dest
    → HasNoNul password
    → is_absolute dest ≡ true
    → is_utf8 password ≡ true
    → length (encode_request (verb_of b) dest password) ≤ request_limit
    → parse_request utf8_error (encode_request (verb_of b) dest password)
      ≡ ok (record { with_progress = b; dest = dest; password = password })
unfolding parse_request
parse_request-encode_request utf8_error b dest password d p a u l =
    ap (λ s. of_fields utf8_error (split_nul s))
      (take_all request_limit (encode_request (verb_of b) dest password) l)
    ∙ ap (of_fields utf8_error)
        (split_nul-encode_request (verb_of b) dest password (verb_of-HasNoNul b) d p)
    ∙ by_verb-verb_of utf8_error b dest password
    ∙ rw (a, u) refl
