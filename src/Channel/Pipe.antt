-- ===== src/Channel/Pipe.antt =====
-- What a channel between two threads promises to those who look only at what goes in and comes
-- out: a pipe accepts values at any moment, and delivers the first one that is waiting.
use capptpl.Base.{List, [], ◌++◌, ◌∷◌, ◌≡◌}

pub record Pipe (A : Type 0) : Type 0 where
  pub accepted : List A
  pub waiting : List A
  pub delivered : List A

-- The moves of a pipe, one after the other.
pub data Moves {A : Type 0} : Pipe A → Pipe A → Type 0 where
  still : {p : Pipe A} → Moves p p
  accept :
      {p r : Pipe A} (a : A)
      → Moves p r
      → Moves p (record r { accepted = r.accepted ++ a ∷ []; waiting = r.waiting ++ a ∷ [] })
  deliver :
      {p r : Pipe A} (a : A) (rest : List A)
      → r.waiting ≡ a ∷ rest
      → Moves p r
      → Moves p (record r { waiting = rest; delivered = r.delivered ++ a ∷ [] })

pub Moves-trans : {A : Type 0} {p q r : Pipe A} → Moves p q → Moves q r → Moves p r
Moves-trans h still = h
Moves-trans h (accept a k) = accept a (Moves-trans h k)
Moves-trans h (deliver a rest e k) = deliver a rest e (Moves-trans h k)
