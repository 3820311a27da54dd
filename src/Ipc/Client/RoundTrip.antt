-- ===== src/Ipc/Client/RoundTrip.antt =====
-- src/ipc.rs: what the daemon writes is what the client hears.
use Prim.Native.Char.{Char, char, code}
use Prim.Native.String.{◌++◌ as append}
use Prim.Native.String.append as append_laws
use coffer_fs.Base.{
  ℕ, ◌<◌, ◌≤◌, ◌≡◌, refl, ap, ◌∙◌, true, false, not, none, some, String, List, [], ◌∷◌, Result, ok,
  err, arith, ◌==◌, All,
}
use coffer_fs.Base.Words.{
  trim_end, split_once, strip_prefix, lines, all_chars, is_empty, is_whitespace,
}
use coffer_fs.Base.Words.Laws.{
  strip_prefix-append, strip_prefix-cons_other, str_eq-cons_other, inside, lines-append, lines-last,
  is_empty-append, trim_end-append, trim_end_none, split_once-append, all_chars-append,
}
use coffer_fs.Db.Container.Decimal.{
  u64_mod, to_string, parse_u64-to_string, to_string-all_chars, is_empty-to_string,
}
use coffer_fs.Ipc.Request.{encode_request}
use coffer_fs.Ipc.Backup.{Report, Outcome, unanswered, answered}
use coffer_fs.Ipc.Daemon.{
  Daemon, message, flattened, progress_text, progress_lines, error_text, answer_line, handle, serve,
}
use coffer_fs.Ipc.Client.{no_answer, numbers, progress_of, on_line, read_answer, Connection, ask}

abbrev pub Small : Report → Type 0
Small r = (r.0 < u64_mod) × (r.1 < u64_mod)

digit_unblank : (c : Char) → 48 ≤ code c → code c ≤ 57 → not (is_whitespace c) ≡ true
unfolding is_whitespace
digit_unblank c h k = ground arith

number-trim_end : (n : ℕ) → trim_end (to_string n) ≡ to_string n
number-trim_end n =
    trim_end_none (to_string n) (to_string-all_chars (λ c. not (is_whitespace c)) n digit_unblank)

number-inside : (n : ℕ) → all_chars inside (to_string n) ≡ true
number-inside n = to_string-all_chars inside n λ c h k. ground arith

module _ (r : Report) where
  abbrev copied_text : String
  copied_text = to_string r.0

  abbrev total_text : String
  total_text = to_string r.1

  blank_total : append " " total_text ≡ String.◌∷◌ (char 32 tt) total_text
  blank_total =
      append_laws.cons (char 32 tt) "" total_text
      ∙ ap (λ s. String.◌∷◌ (char 32 tt) s) (append_laws.nil total_text)

  progress_text-inside : all_chars inside (progress_text r) ≡ true
  unfolding progress_text all_chars
  progress_text-inside =
      all_chars-append inside "progress " (append copied_text (append " " total_text)) refl (
        all_chars-append inside copied_text (append " " total_text) (number-inside r.0)
          (all_chars-append inside " " total_text refl (number-inside r.1)))

  progress_text-trim_end : trim_end (progress_text r) ≡ progress_text r
  unfolding progress_text
  progress_text-trim_end =
      trim_end-append "progress " (append copied_text (append " " total_text))
        (trim_end-append copied_text (append " " total_text)
          (trim_end-append " " total_text (number-trim_end r.1) (is_empty-to_string r.1))
          (is_empty-append " " total_text (is_empty-to_string r.1)))
        (is_empty-append copied_text (append " " total_text)
          (is_empty-append " " total_text (is_empty-to_string r.1)))

  split_numbers :
      split_once 32 (append copied_text (append " " total_text)) ≡ some (copied_text, total_text)
  split_numbers = rw blank_total (
      split_once-append 32 (char 32 tt) copied_text total_text refl
        (to_string-all_chars (λ c. not (code c == 32)) r.0 λ c h k. ground arith))

  progress_of-text :
      Small r → progress_of (strip_prefix "progress " (trim_end (progress_text r))) ≡ some (r ∷ [])
  unfolding progress_text
  progress_of-text s =
      ap (λ t. progress_of (strip_prefix "progress " t)) progress_text-trim_end
      ∙ ap progress_of
          (strip_prefix-append "progress " (append copied_text (append " " total_text)))
      ∙ ap numbers split_numbers
      ∙ rw (parse_u64-to_string r.0 s.0, parse_u64-to_string r.1 s.1) refl

-- What the client makes of an answer.
abbrev pub told : Outcome → Result String (Unit {0})
told unanswered = err no_answer
told (answered (ok u)) = ok tt
told (answered (err e)) = err (flattened (message e))

-- A message that fits a line: it is not empty, ends in no blank, and holds no carriage return.
abbrev pub Fits : Outcome → Type 0
Fits unanswered = Unit
Fits (answered (ok u)) = Unit
Fits (answered (err e)) =
    (all_chars inside (flattened (message e)) ≡ true)
    × (trim_end (flattened (message e)) ≡ flattened (message e))
    × (is_empty (flattened (message e)) ≡ false)

read_answer-last : (o : Outcome) → Fits o → read_answer none (lines (answer_line o)) ≡ ([], told o)
unfolding read_answer lines error_text all_chars
read_answer-last unanswered f = refl
read_answer-last (answered (ok u)) f = refl
read_answer-last (answered (err e)) (i, t, n) =
    ap (read_answer none) (
      lines-last (append "error " (flattened (message e)))
        (all_chars-append inside "error " (flattened (message e)) refl i))
    ∙ ap (λ l. on_line (progress_of (strip_prefix "progress " l)) l (read_answer none []))
        (trim_end-append "error " (flattened (message e)) t n)
    ∙ rw
        (
          strip_prefix-cons_other (char 112 tt) (char 101 tt) "rogress " "rror "
              (flattened (message e)) refl,
          str_eq-cons_other (char 101 tt) (char 111 tt) "rror " (flattened (message e)) "k" refl,
          strip_prefix-append "error " (flattened (message e)),
        )
        refl

read_answer-lines :
    (rs : List Report) (o : Outcome)
    → All Small rs
    → Fits o
    → read_answer none (lines (progress_lines rs (answer_line o))) ≡ (rs, told o)
unfolding progress_lines read_answer
read_answer-lines [] o s f = read_answer-last o f
read_answer-lines (r ∷ rs) o s f =
    ap (read_answer none)
      (lines-append (progress_text r) (progress_lines rs (answer_line o)) (progress_text-inside r))
    ∙ rw (progress_of-text r s.0, read_answer-lines rs o s.1 f) refl

-- A connection to this daemon on which nothing goes wrong.
abbrev pub connect : Daemon → Connection
connect d = record {
  written = ok tt;
  answer = λ sent. handle (record d { sent = ok sent });
  broken = none;
}

-- The client hears the reports that the daemon makes, in order, and ends as it does: well, or with
-- the daemon's message, where the numbers are u64 and the message fits a line.
pub ask-handle :
    (d : Daemon) (verb dest password : List ℕ)
    → All Small (serve (record d { sent = ok (encode_request verb dest password) })).0
    → Fits (serve (record d { sent = ok (encode_request verb dest password) })).1
    → ask (connect d) verb dest password ≡ (
      (serve (record d { sent = ok (encode_request verb dest password) })).0,
      told (serve (record d { sent = ok (encode_request verb dest password) })).1,
    )
unfolding ask handle
ask-handle d verb dest password s f =
    read_answer-lines (serve (record d { sent = ok (encode_request verb dest password) })).0
      (serve (record d { sent = ok (encode_request verb dest password) })).1 s f
