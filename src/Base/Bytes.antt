-- ===== src/Base/Bytes.antt =====
-- Byte vectors: `resize`, `truncate` and `copy_from_slice` of `Vec<u8>`, read with 0 as default.
use Prim.Native.Nat.{ℕ, ◌+◌, ◌-◌, ◌≤◌}
use mathlib.Core.Path.{◌≡◌}
use mathlib.Core.Bool.{◌&&◌}
use mathlib.Core.List.{List, ◌++◌}
use native.Mathlib.Omega.{arith}
use coffer_fs.Base.Tests.{ltb, leb, if◌then◌else◌}
use coffer_fs.Base.Lists.{
  length, take, drop, replicate, get_or, length-append, length-take, length-replicate,
  get_or-append, get_or-replicate, get_or-take, get_or-drop, get_or_beyond,
}

abbrev pub byte : List ℕ → ℕ → ℕ
byte buf i = get_or buf i 0

-- `if buf.len() < n { buf.resize(n, 0) }`
unfoldable pub grow : List ℕ → ℕ → List ℕ
grow buf n = if ltb (length buf) n then buf ++ replicate (n - length buf) 0 else buf

-- `buf[off..off + chunk.len()].copy_from_slice(chunk)`
unfoldable pub splice : List ℕ → ℕ → List ℕ → List ℕ
splice buf off chunk = take off buf ++ (chunk ++ drop (off + length chunk) buf)

pub byte-grow : (buf : List ℕ) (n i : ℕ) → byte (grow buf n) i ≡ byte buf i
unfolding grow
byte-grow buf n i = ground (
  arith,
  get_or-append {A = ℕ} 0 buf (replicate {A = ℕ} (n - length buf) 0) i,
  get_or-replicate {A = ℕ} 0 (n - length buf) (i - length buf),
  get_or_beyond {A = ℕ} 0 buf i,
)

pub length-grow : (buf : List ℕ) (n : ℕ) → n ≤ length (grow buf n)
unfolding grow
length-grow buf n = ground (
  arith,
  length-append buf (replicate {A = ℕ} (n - length buf) 0),
  length-replicate {A = ℕ} (n - length buf) 0,
)

pub byte-splice :
    (buf : List ℕ) (off : ℕ) (chunk : List ℕ) (i : ℕ)
    → off + length chunk ≤ length buf
    → byte (splice buf off chunk) i
      ≡ (if leb off i && ltb i (off + length chunk) then byte chunk (i - off) else byte buf i)
unfolding splice
byte-splice buf off chunk i h = ground (
  arith,
  get_or-append {A = ℕ} 0 (take off buf) (chunk ++ drop (off + length chunk) buf) i,
  length-take off buf,
  get_or-take {A = ℕ} 0 off buf i,
  get_or-append {A = ℕ} 0 chunk (drop (off + length chunk) buf) (i - off),
  get_or-drop {A = ℕ} 0 (off + length chunk) buf (i - off - length chunk),
)
