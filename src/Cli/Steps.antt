-- ===== src/Cli/Steps.antt =====
-- src/main.rs: a command as the actions that it takes, in their order, and its result; and what it
-- means that a command keeps to a protocol.
use coffer_fs.Base.{
  ◌≡◌, refl, ap, ◌∙◌, sym, subst, Option, none, some, List, [], ◌∷◌, ◌++◌, Result, ok, err,
}

abbrev pub Traced : Type 0 → Type 0 → Type 0 → Type 0
Traced X E A = List X × Result E A

module _ {X E A : Type 0} where
  unfoldable pub pure : A → Traced X E A
  pure a = ([], ok a)

  -- One action, with how it ends.
  unfoldable pub step : X → Result E A → Traced X E A
  step x r = (x ∷ [], r)

  -- What the system answers to a question, or a test of the code.
  unfoldable pub perform : Result E A → Traced X E A
  perform r = ([], r)

  abbrev pub after : List X → Traced X E A → Traced X E A
  after xs (ys, r) = (xs ++ ys, r)

module _ {X E A B : Type 0} where
  abbrev continue : List X → Result E A → (A → Traced X E B) → Traced X E B
  continue xs (err e) f = (xs, err e)
  continue xs (ok a) f = after xs (f a)

  infixl 5 ◌>>=◌ ◌>>◌
  unfoldable pub ◌>>=◌ : Traced X E A → (A → Traced X E B) → Traced X E B
  (xs, r) >>= f = continue xs r f

  abbrev pub ◌>>◌ : Traced X E A → Traced X E B → Traced X E B
  m >> k = m >>= λ _. k

-- A protocol says in which state of a command an action may come, and to which state it leads.
module _ {X S : Type 0} (next : S → X → Option S) where
  unfoldable pub walk : Option S → List X → Option S
  walk none xs = none
  walk (some s) [] = some s
  walk (some s) (x ∷ xs) = walk (next s x) xs

  walk-append : (o : Option S) (xs ys : List X) → walk o (xs ++ ys) ≡ walk (walk o xs) ys
  unfolding walk
  walk-append none xs ys = refl
  walk-append (some s) [] ys = refl
  walk-append (some s) (x ∷ xs) ys = walk-append (next s x) xs ys

  abbrev pub OnOk : {E A : Type 0} → (A → S → Type 0) → Result E A → S → Type 0
  OnOk Q (ok a) s = Q a s
  OnOk Q (err e) s = Unit

  -- From `s` on, each action is allowed where it comes, and success leaves a state with `Q`.
  pub record Follows {E A : Type 0} (s : S) (m : Traced X E A) (Q : A → S → Type 0) : Type 0 where
    pub reached : S
    pub walked : walk (some s) m.0 ≡ some reached
    pub ended : OnOk Q m.1 reached

  module _ {E A : Type 0} where
    pub pure-Follows : (s : S) (a : A) (Q : A → S → Type 0) → Q a s → Follows {E = E} s (pure a) Q
    unfolding walk pure
    pure-Follows s a Q q = record { reached = s; walked = refl; ended = q }

    pub step-Follows :
        {s : S} (x : X) (r : Result E A) (t : S)
        → next s x ≡ some t
        → Follows s (step x r) (λ a u. u ≡ t)
    unfolding walk step
    step-Follows {s = s} x (ok a) t e = record {
      reached = t;
      walked = ap (λ o. walk o []) e;
      ended = refl;
    }
    step-Follows {s = s} x (err f) t e = record {
      reached = t;
      walked = ap (λ o. walk o []) e;
      ended = tt;
    }

    pub moved-Follows :
        {s t : S} (m : Traced X E A) (Q : A → S → Type 0) → s ≡ t → Follows t m Q → Follows s m Q
    moved-Follows m Q e f = subst (λ x. Follows x m Q) (sym e) f

  module _ {E A B : Type 0} where
    pub bind-Follows :
        {s : S} (m : Traced X E A) (f : A → Traced X E B) {Q : A → S → Type 0} {R : B → S → Type 0}
        → Follows s m Q
        → ((a : A) (t : S) → Q a t → Follows t (f a) R)
        → Follows s (m >>= f) R
    unfolding ◌>>=◌
    bind-Follows {s = s} (xs, err e) f m g = record {
      reached = m.reached;
      walked = m.walked;
      ended = tt;
    }
    bind-Follows {s = s} (xs, ok a) f m g =
        let g' = g a m.reached m.ended in
        record {
          reached = g'.reached;
          walked = walk-append (some s) xs (f a).0 ∙ ap (λ o. walk o (f a).0) m.walked ∙ g'.walked;
          ended = g'.ended;
        }

    -- The same where the state in between is known.
    pub then-Follows :
        {s : S} (m : Traced X E A) (f : A → Traced X E B) (t : S) {R : B → S → Type 0}
        → Follows s m (λ a u. u ≡ t)
        → ((a : A) → Follows t (f a) R)
        → Follows s (m >>= f) R
    then-Follows m f t {R = R} h g = bind-Follows m f h (λ a u e. moved-Follows (f a) R e (g a))

    pub perform-then :
        {s : S} (r : Result E A) (f : A → Traced X E B) {R : B → S → Type 0}
        → ((a : A) → r ≡ ok a → Follows s (f a) R)
        → Follows s (perform r >>= f) R
    unfolding walk perform ◌>>=◌
    perform-then {s = s} (err e) f g = record { reached = s; walked = refl; ended = tt }
    perform-then {s = s} (ok a) f g = g a refl

    pub step-then :
        {s : S} (x : X) (r : Result E A) (f : A → Traced X E B) (t : S) {R : B → S → Type 0}
        → next s x ≡ some t
        → ((a : A) → Follows t (f a) R)
        → Follows s (step x r >>= f) R
    step-then x r f t e g = then-Follows (step x r) f t (step-Follows x r t e) g
