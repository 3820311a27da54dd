-- ===== src/Fs/Content/Lost.antt =====
-- `read` of src/fs.rs where the blocks cannot be read.
use coffer_fs.Base.{
  ℕ, zero, suc, ◌+◌, ◌-◌, ◌%◌, ◌≤◌, ◌<◌, min, ◌≡◌, refl, ap, ◌∙◌, sym, none, some, List, [], ◌∷◌,
  ◌++◌, arith, replicate, false, ltb, leb, if◌then◌else◌, Result, ok, err, inl, inr, Bool-cases,
  ltb→lt, ltb→le, leb→le,
}
use mathlib.Core.List.{append-nil, append_assoc}
use coffer_fs.Db.{Db, block_size}
use coffer_fs.Sql.{
  SqlError, Errno, Conn, Run, tick, pure, attempt, query, statement, map_err, ◌>>=◌, always_eio,
}
use coffer_fs.Fs.Schema.{
  get_block, select_row, row_by_ino, InodeRow, max_file_size, u64_mod, u32_mod,
}
use coffer_fs.Fs.Steps.{touched, touch_then, or_fail_then}
use coffer_fs.Fs.Content.Loops.{read_chunk, chunk_at, read_loop}
use coffer_fs.Fs.Content.Calls.{read, read_end}
use coffer_fs.Fs.Content.Reading.{chunk_pos, read_end_lem}

abbrev pub zeros : ℕ → List ℕ
zeros n = replicate n 0

zeros-add : (n m : ℕ) → zeros n ++ zeros m ≡ zeros (n + m)
zeros-add zero m = ap zeros (omega arith)
zeros-add (suc n) m =
    let k : suc (n + m) ≡ suc n + m = omega arith in ap (λ r. 0 ∷ r) (zeros-add n m) ∙ ap zeros k

no_block : (off n : ℕ) → read_chunk [] off n ≡ zeros n
unfolding read_chunk
no_block off n = let e : ltb off 0 ≡ false = ground arith in rw e refl

-- Every statement fails.
abbrev pub Broken : SqlError → Conn → Type 0
Broken e c = (n : ℕ) → c.faults n ≡ some e

module _ {A B : Type 0} where
  lost_then :
      (q : Db → A) (f : Result SqlError A → Run Errno B) (c : Conn) (e : SqlError)
      → Broken e c
      → (attempt (query q) >>= f) c ≡ f (err e) (tick c)
  unfolding ◌>>=◌ statement
  lost_then q f c e broken = rw (broken 0, statement) refl

  found_then :
      (q : Db → A) (f : A → Run Errno B) (c : Conn)
      → c.faults 0 ≡ none
      → (map_err always_eio (query q) >>= f) c ≡ f (q c.db) (tick c)
  unfolding ◌>>=◌ statement
  found_then q f c calm = rw (calm, statement) refl

read_loop-Broken :
    (fuel ino pos stop : ℕ) (out : List ℕ) (c : Conn) (e : SqlError)
    → Broken e c
    → stop - pos ≤ fuel
    → (read_loop fuel ino pos stop out c).0 ≡ ok (out ++ zeros (stop - pos))
unfolding read_loop pure get_block
read_loop-Broken zero ino pos stop out c e broken h =
    let k : stop - pos ≡ 0 = omega arith in rw k (ap ok (sym (append-nil out)))
read_loop-Broken (suc fuel) ino pos stop out c e broken h = elim (Bool-cases (ltb pos stop)) [
  | inl more ↦
      let p = chunk_pos pos stop (ltb→lt pos stop more) in
      let whole : chunk_at pos stop + (stop - (pos + chunk_at pos stop)) ≡ stop - pos =
        omega (arith, ltb→lt pos stop more) in
      rw (more, lost_then _ _ c e broken)
        (read_loop-Broken fuel ino (pos + chunk_at pos stop) stop _ (tick c) e (λ n. broken (suc n))
            (omega (arith, ltb→lt pos stop more))
          ∙ ap ok (
              rw
                (
                  no_block (pos % block_size) (chunk_at pos stop),
                  append_assoc,
                  zeros-add (chunk_at pos stop) (stop - (pos + chunk_at pos stop)),
                  whole,
                )
                refl))
  | inr end ↦
      let k : stop - pos ≡ 0 = omega (arith, ltb→le pos stop end) in
      rw (end, k) (ap ok (sym (append-nil out)))
]

range-Broken :
    (ino offset stop : ℕ) (c : Conn) (e : SqlError)
    → Broken e c
    → ((if leb stop offset then pure [] else read_loop (stop - offset) ino offset stop []) c).0
      ≡ ok (zeros (stop - offset))
unfolding pure
range-Broken ino offset stop c e broken = elim (Bool-cases (leb stop offset)) [
  | inl none_left ↦
      let k : stop - offset ≡ 0 = omega (arith, leb→le stop offset none_left) in
      rw (none_left, k) refl
  | inr some_left ↦
      rw some_left (read_loop-Broken (stop - offset) ino offset stop [] c e broken (omega arith))
]

-- Where the row of the file is read and every statement after that fails, `read` answers with
-- success and zeros, as many as the range of the file has bytes, whatever the file holds.
pub read-zeros :
    (ino offset size : ℕ) (row : InodeRow) (c : Conn) (e : SqlError)
    → c.faults 0 ≡ none
    → ((n : ℕ) → c.faults (suc n) ≡ some e)
    → select_row ino c.db ≡ some row
    → offset < u64_mod
    → size < u32_mod
    → row.size ≤ max_file_size
    → (read ino offset size c).0 ≡ ok (zeros (min (offset + size) row.size - offset))
unfolding read row_by_ino
read-zeros ino offset size row c e first broken k h l m =
    rw (touch_then, found_then _ _ (touched c) first, k, or_fail_then)
      (range-Broken ino offset (read_end offset size row.size) (tick (touched c)) e broken
        ∙ ap (λ n. ok (zeros n)) (read_end_lem offset size row.size h l m))
