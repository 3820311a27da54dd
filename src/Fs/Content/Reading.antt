-- ===== src/Fs/Content/Reading.antt =====
-- `read` of src/fs.rs returns the bytes of the file.
use coffer_fs.Base.{
  ℕ, zero, suc, ◌+◌, ◌-◌, ◌/◌, ◌%◌, ◌≤◌, ◌<◌, min, ◌≡◌, ap, ◌∙◌, sym, some, List, [], ◌++◌, arith,
  ltb, leb, if◌then◌else◌, tabulate, tabulate-add, tabulate_ext, ok, inl, inr, Bool-cases, ltb→lt,
  ltb→le, leb→le,
}
use mathlib.Core.List.{append-nil, append_assoc}
use coffer_fs.Db.{Block, block_size}
use coffer_fs.Db.Rows.{find_block}
use coffer_fs.Db.Blocks.{byte_at}
use coffer_fs.Sql.{Conn, tick, pure}
use coffer_fs.Sql.Calm.{Calm, Calm-tick, query_then, or_error_then}
use coffer_fs.Fs.Schema.{
  get_block, select_row, row_by_ino, InodeRow, max_file_size, u64_mod, u32_mod,
}
use coffer_fs.Fs.Steps.{touched, touch_then, or_fail_then}
use coffer_fs.Fs.Content.Loops.{read_chunk, chunk_at, read_loop}
use coffer_fs.Fs.Content.Calls.{read, read_end}
use coffer_fs.Fs.Content.Chunks.{read_chunk-byte_at}

-- The `n` bytes of a file from `pos` on.
abbrev pub bytes_from : List Block → ℕ → ℕ → ℕ → List ℕ
bytes_from bs ino pos n = tabulate n (λ k. byte_at bs ino (pos + k))

pub chunk_pos :
    (pos stop : ℕ) → pos < stop → (0 < chunk_at pos stop) × (chunk_at pos stop ≤ stop - pos)
unfolding chunk_at
chunk_pos pos stop h = (omega arith, omega arith)

bytes_from-add :
    (bs : List Block) (ino pos n m : ℕ)
    → bytes_from bs ino pos n ++ bytes_from bs ino (pos + n) m ≡ bytes_from bs ino pos (n + m)
bytes_from-add bs ino pos n m =
    ap (λ r. bytes_from bs ino pos n ++ r)
      (tabulate_ext m _ _ λ k h. ap (byte_at bs ino) (omega arith))
    ∙ sym (tabulate-add n m (λ k. byte_at bs ino (pos + k)))

-- What a round leaves to the next ones.
next_bytes :
    (bs : List Block) (ino pos stop : ℕ) (out : List ℕ)
    → pos < stop
    → (out
          ++ read_chunk
              (find_block ino (pos / block_size) bs)
              (pos % block_size)
              (chunk_at pos stop))
        ++ bytes_from bs ino (pos + chunk_at pos stop) (stop - (pos + chunk_at pos stop))
      ≡ out ++ bytes_from bs ino pos (stop - pos)
next_bytes bs ino pos stop out h =
    let p = chunk_pos pos stop h in
    let whole : chunk_at pos stop + (stop - (pos + chunk_at pos stop)) ≡ stop - pos = omega arith in
    rw (
      read_chunk-byte_at bs ino pos stop,
      append_assoc,
      bytes_from-add bs ino pos (chunk_at pos stop) (stop - (pos + chunk_at pos stop)),
      whole,
    )

read_loop_lem :
    (fuel ino pos stop : ℕ) (out : List ℕ) (c : Conn)
    → Calm c
    → stop - pos ≤ fuel
    → (read_loop fuel ino pos stop out c).0
      ≡ ok (out ++ bytes_from c.db.blocks ino pos (stop - pos))
unfolding read_loop pure tabulate get_block
read_loop_lem zero ino pos stop out c calm h =
    let e : stop - pos ≡ 0 = omega arith in rw e (ap ok (sym (append-nil out)))
read_loop_lem (suc fuel) ino pos stop out c calm h = elim (Bool-cases (ltb pos stop)) [
  | inl more ↦
      let p = chunk_pos pos stop (ltb→lt pos stop more) in
      rw (more, query_then _ _ c calm)
        (read_loop_lem fuel ino (pos + chunk_at pos stop) stop _ (tick c) (Calm-tick c calm)
            (omega (arith, ltb→lt pos stop more))
          ∙ ap ok (next_bytes c.db.blocks ino pos stop out (ltb→lt pos stop more)))
  | inr end ↦
      let e : stop - pos ≡ 0 = omega (arith, ltb→le pos stop end) in
      rw (end, e) (ap ok (sym (append-nil out)))
]

-- The end of the range: the sum of u64 may wrap, and the range is empty then, as it should be.
pub read_end_lem :
    (offset size file_size : ℕ)
    → offset < u64_mod
    → size < u32_mod
    → file_size ≤ max_file_size
    → read_end offset size file_size - offset ≡ min (offset + size) file_size - offset
unfolding read_end
read_end_lem offset size file_size h k l = omega arith

-- An empty range takes no round.
range_lem :
    (ino offset stop : ℕ) (c : Conn)
    → Calm c
    → ((if leb stop offset then pure [] else read_loop (stop - offset) ino offset stop []) c).0
      ≡ ok (bytes_from c.db.blocks ino offset (stop - offset))
unfolding pure tabulate
range_lem ino offset stop c calm = elim (Bool-cases (leb stop offset)) [
  | inl none_left ↦
      let e : stop - offset ≡ 0 = omega (arith, leb→le stop offset none_left) in rw (none_left, e)
  | inr some_left ↦
      rw some_left (read_loop_lem (stop - offset) ino offset stop [] c calm (omega arith))
]

-- Where no statement fails, `read` returns the bytes of the file from the offset on, as many as
-- were asked for or as there are up to the file's end, for any u64 offset and u32 size: also
-- where their sum wraps, and where the range starts behind the end.
pub read_lem :
    (ino offset size : ℕ) (row : InodeRow) (c : Conn)
    → Calm c
    → select_row ino c.db ≡ some row
    → offset < u64_mod
    → size < u32_mod
    → row.size ≤ max_file_size
    → (read ino offset size c).0
      ≡ ok (bytes_from c.db.blocks ino offset (min (offset + size) row.size - offset))
unfolding read row_by_ino
read_lem ino offset size row c calm e h k l =
    rw (touch_then, or_error_then _ _ _ (touched c) calm, e, or_fail_then)
      (range_lem ino offset (read_end offset size row.size) (tick (touched c))
          (Calm-tick (touched c) calm)
        ∙ ap (λ n. ok (bytes_from c.db.blocks ino offset n))
            (read_end_lem offset size row.size h k l))
