-- ===== src/Progress/Line.antt =====
-- src/progress.rs: `Bar`, which draws the progress line and ends it. Times are in nanoseconds.
use coffer_fs.Base.{
  ℕ, ◌-◌, ◌≡◌, refl, ap, ◌∙◌, Bool, true, false, not, ◌||◌, Option, none, some, List, [], ◌∷◌, ◌++◌,
  ltb, if◌then◌else◌, length, replicate, inl, inr, Bool-cases,
}
use coffer_fs.Progress.{Speeds, render}

-- What is written: the text of a line, behind a carriage return, or the end of a line.
pub data Output : Type 0 where
  text : List ℕ → Output
  newline : Output

pub record Bar : Type 0 where
  pub enabled : Bool
  pub start : ℕ
  pub last_draw : Option ℕ
  pub open_line : Bool
  pub last_len : ℕ
  pub reported : Bool
  pub done : ℕ
  pub total : ℕ

abbrev pub new_bar : Bool → ℕ → Bar
new_bar is_terminal now = record {
  enabled = is_terminal;
  start = now;
  last_draw = none;
  open_line = false;
  last_len = 0;
  reported = false;
  done = 0;
  total = 0;
}

-- 100 ms
abbrev pub is_recent : ℕ → Option ℕ → Bool
is_recent now none = false
is_recent now (some t) = ltb (now - t) 100000000

-- A call of `update`, at a time and on a terminal of some width.
pub record Call : Type 0 where
  pub copied : ℕ
  pub size : ℕ
  pub now : ℕ
  pub width : ℕ

abbrev pub finished_line : Bar × List Output → Bar × List Output
finished_line (b, out) = (record b { open_line = false }, out ++ (newline ∷ []))

abbrev pub drop_bar : Bar → List Output
drop_bar b = if b.open_line then newline ∷ [] else []

module _ (S : Speeds) where
  -- Blanks cover what a longer line has left.
  unfoldable pub draw : Bar → Bool → ℕ → ℕ → Bar × List Output
  unfolding render
  draw b finished now width =
      let line = render S b.done b.total (now - b.start) finished width in
      (
        record b { last_len = length line; open_line = true },
        text (line ++ replicate (b.last_len - length line) 32) ∷ [],
      )

  abbrev pub redraw : Bar → Call → Bar × List Output
  redraw b c =
      if is_recent c.now b.last_draw
      then (b, [])
      else draw (record b { last_draw = some c.now }) false c.now c.width

  unfoldable pub update : Bar → Call → Bar × List Output
  unfolding draw
  update b c =
      let b' = record b { done = c.copied; total = c.size; reported = true } in
      if not b'.enabled then (b', []) else redraw b' c

  unfoldable pub finish : Bar → ℕ → ℕ → Bar × List Output
  unfolding draw
  finish b now width =
      if not b.enabled || not b.reported then (b, []) else finished_line (draw b true now width)

  -- A copy that reports, and is finished, or fails and drops the bar only.
  unfoldable pub whole_copy : Bar → List Call → Option (ℕ × ℕ) → List Output
  unfolding update finish
  whole_copy b [] none = drop_bar b
  whole_copy b [] (some (now, width)) = let (b', out) = finish b now width in out ++ drop_bar b'
  whole_copy b (c ∷ cs) end = let (b', out) = update b c in out ++ whole_copy b' cs end

-- Whether the cursor stands behind a text, after this output.
unfoldable pub is_open : Bool → List Output → Bool
is_open o [] = o
is_open o (text line ∷ out) = is_open true out
is_open o (newline ∷ out) = is_open false out

is_open-append : (o : Bool) (xs ys : List Output) → is_open o (xs ++ ys) ≡ is_open (is_open o xs) ys
unfolding is_open
is_open-append o [] ys = refl
is_open-append o (text line ∷ xs) ys = is_open-append true xs ys
is_open-append o (newline ∷ xs) ys = is_open-append false xs ys

is_open-drop_bar : (b : Bar) → is_open b.open_line (drop_bar b) ≡ false
unfolding is_open
is_open-drop_bar b = elim (Bool-cases b.open_line) [ inl e ↦ rw e refl | inr e ↦ rw e refl ]

module _ (S : Speeds) where
  is_open-redraw :
      (b : Bar) (c : Call) → is_open b.open_line (redraw S b c).1 ≡ (redraw S b c).0.open_line
  unfolding draw is_open
  is_open-redraw b c = elim (Bool-cases (is_recent c.now b.last_draw)) [
    | inl e ↦ rw e refl
    | inr e ↦ rw e refl
  ]

  is_open-update :
      (b : Bar) (c : Call) → is_open b.open_line (update S b c).1 ≡ (update S b c).0.open_line
  unfolding update is_open
  is_open-update b c = elim (Bool-cases (not b.enabled)) [
    | inl e ↦ rw e refl
    | inr e ↦
        rw e (is_open-redraw (record b { done = c.copied; total = c.size; reported = true }) c)
  ]

  is_open-finish :
      (b : Bar) (now width : ℕ)
      → is_open b.open_line (finish S b now width).1 ≡ (finish S b now width).0.open_line
  unfolding finish draw is_open
  is_open-finish b now width = elim (Bool-cases (not b.enabled || not b.reported)) [
    | inl e ↦ rw e refl
    | inr e ↦ rw e refl
  ]

  -- However a copy reports, and whether it is finished or fails: after the bar is dropped, the cursor
  -- does not stand behind a progress line, so that the next message has a line of its own.
  pub whole_copy-closed :
      (b : Bar) (calls : List Call) (end : Option (ℕ × ℕ))
      → is_open b.open_line (whole_copy S b calls end) ≡ false
  unfolding whole_copy
  whole_copy-closed b [] none = is_open-drop_bar b
  whole_copy-closed b [] (some (now, width)) =
      is_open-append b.open_line (finish S b now width).1 (drop_bar (finish S b now width).0)
      ∙ ap (λ o. is_open o (drop_bar (finish S b now width).0)) (is_open-finish b now width)
      ∙ is_open-drop_bar (finish S b now width).0
  whole_copy-closed b (c ∷ cs) end =
      is_open-append b.open_line (update S b c).1 (whole_copy S (update S b c).0 cs end)
      ∙ ap (λ o. is_open o (whole_copy S (update S b c).0 cs end)) (is_open-update b c)
      ∙ whole_copy-closed (update S b c).0 cs end
