-- ===== src/Ipc.antt =====
-- src/ipc.rs: the control socket of a mount that holds its container exclusively.
pub mod Request
pub mod Backup
pub mod Place
mod Tests
pub mod Daemon
pub mod Client
use Prim.Native.Nat.{bit_xor}
use coffer_fs.Base.{
  ℕ, zero, suc, ◌+◌, ◌*◌, ◌/◌, ◌%◌, ◌<◌, ◌≤◌, ◌≡◌, refl, ◌&&◌, ◌||◌, Bool, true, List, [], ◌∷◌,
  ◌++◌, String, as_bytes, length, length-append, All, arith, ltb, leb, ==_iff, if◌then◌else◌, ap,
  ◌∙◌,
}
use coffer_fs.Db.Container.Decimal.{u64_mod}

-- One round of FNV-1a, with the product taken modulo 2 ^ 64.
unfoldable fnv : ℕ → List ℕ → ℕ
fnv h [] = h
fnv h (b ∷ bs) = fnv (bit_xor h b * 0x100000001b3 % u64_mod) bs

abbrev hex_digit : ℕ → ℕ
hex_digit d = if ltb d 10 then 48 + d else 87 + d

-- The last `n` digits in base 16 before `tail`; `{h:016x}` of a u64 is its last 16.
unfoldable hex : ℕ → ℕ → List ℕ → List ℕ
hex zero h tail = tail
hex (suc n) h tail = hex n (h / 16) (hex_digit (h % 16) ∷ tail)

unfoldable pub socket_name : List ℕ → List ℕ
unfolding fnv hex
socket_name container = hex 16 (fnv 0xcbf29ce484222325 container) (as_bytes ".sock")

-- A byte that may stand in the name of a file in a directory: neither NUL nor '/'.
abbrev pub IsNameByte : ℕ → Type 0
IsNameByte b = (0 < b) × (b < 128) × (b ≡ 47 → ⊥)

hex-IsNameByte : (n h : ℕ) (tail : List ℕ) → All IsNameByte tail → All IsNameByte (hex n h tail)
unfolding hex
hex-IsNameByte zero h tail t = t
hex-IsNameByte (suc n) h tail t =
    hex-IsNameByte n (h / 16) (hex_digit (h % 16) ∷ tail) (digit (h % 16) (omega arith), t)
  where
    digit : (d : ℕ) → d < 16 → IsNameByte (hex_digit d)
    digit d k = (ground arith, ground arith, λ e. ground arith)

length-hex : (n h : ℕ) (tail : List ℕ) → length (hex n h tail) ≡ n + length tail
unfolding hex
length-hex zero h tail = omega arith
length-hex (suc n) h tail = omega (arith, length-hex n (h / 16) (hex_digit (h % 16) ∷ tail))

suffix-IsNameByte : All IsNameByte (as_bytes ".sock")
unfolding as_bytes
suffix-IsNameByte = omega arith

length-suffix : length (as_bytes ".sock") ≡ 5
unfolding as_bytes
length-suffix = refl

-- The name of a container's socket has 21 bytes, all ASCII, with neither NUL nor '/' among them,
-- whatever the path of the container.
pub socket_name_lem :
    (container : List ℕ)
    → (length (socket_name container) ≡ 21) × All IsNameByte (socket_name container)
unfolding socket_name
socket_name_lem container = (
  omega (arith, length-hex 16 (fnv 0xcbf29ce484222325 container) (as_bytes ".sock"), length-suffix),
  hex-IsNameByte 16 (fnv 0xcbf29ce484222325 container) (as_bytes ".sock") suffix-IsNameByte,
)
