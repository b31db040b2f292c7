-- ===== src/Base/State.antt =====
-- Computations on a state that may fail, and such a computation on one part of a state. A
-- computation on a ledger is one whose state is the list of what is held.
use mathlib.Core.Option.{Option, none, some}
use mathlib.Core.Path.{◌≡◌}

abbrev pub State : Type 0 → Type 0 → Type 0
State S A = S → Option (A × S)

abbrev pub pure : {S A : Type 0} → A → State S A
pure a s = some (a, s)

infixl 5 ◌>>=◌ ◌>>◌
abbrev pub ◌>>=◌ : {S A B : Type 0} → State S A → (A → State S B) → State S B
◌>>=◌ m f s = elim (m s) [ none ↦ none | some (a, s') ↦ f a s' ]

abbrev pub ◌>>◌ : {S B : Type 0} → State S (Unit {0}) → State S B → State S B
m >> k = m >>= λ _. k

-- A part of a state, and how it is put back.
pub record Part (S T : Type 0) : Type 0 where
  pub get : S → T
  pub put : T → S → S

unfoldable pub zoom : {S T A : Type 0} → Part S T → State T A → State S A
zoom part m s = elim (m (part.get s)) [ none ↦ none | some (a, t) ↦ some (a, part.put t s) ]

pub zoom-some :
    {S T A : Type 0} (part : Part S T) (m : State T A) (s : S) {a : A} {t : T}
    → m (part.get s) ≡ some (a, t)
    → zoom part m s ≡ some (a, part.put t s)
unfolding zoom
zoom-some part m s e = rw (e, zoom)

-- A first step that succeeds.
pub bind-some :
    {S A B : Type 0} (m : State S A) (f : A → State S B) (s : S) {a : A} {s' : S}
    → m s ≡ some (a, s')
    → (m >>= f) s ≡ f a s'
bind-some m f s e = rw (e, ◌>>=◌)

-- A first step on a part.
pub zoom-bind :
    {S T A B : Type 0} (part : Part S T) (m : State T A) (f : A → State S B) (s : S) {a : A} {t : T}
    → m (part.get s) ≡ some (a, t)
    → (zoom part m >>= f) s ≡ f a (part.put t s)
zoom-bind part m f s e = bind-some (zoom part m) f s (zoom-some part m s e)
