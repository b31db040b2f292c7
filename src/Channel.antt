-- ===== src/Channel.antt =====
-- What the threads rely on of lib/cchan-0.1, which is another project's library: a channel is a
-- queue. `send` puts a value at its end and never blocks; `wait_time` takes the first value, or
-- gives nothing when the time has passed and the channel is empty; `used` is the number of values.
pub mod Pipe
use capptpl.Base.{List, Option, [], arith, length, none, refl, some, ℕ, ◌++◌, ◌∷◌, ◌≡◌}

pub record Channel (A : Type 0) : Type 1 where
  pub Queue : Type 0
  pub contents : Queue → List A
  pub new : Queue
  pub send : A → Queue → Queue
  pub wait_time : Queue → Option (A × Queue)
  pub used : Queue → ℕ
  pub new_is_empty : contents new ≡ []
  pub send_appends : (a : A) (q : Queue) → contents (send a q) ≡ contents q ++ a ∷ []
  pub wait_takes :
      (q : Queue) (a : A) (q' : Queue) → wait_time q ≡ some (a, q') → contents q ≡ a ∷ contents q'
  pub wait_empty : (q : Queue) → wait_time q ≡ none → contents q ≡ []
  pub used_counts : (q : Queue) → used q ≡ length (contents q)

abbrev pub take_first : {A : Type 0} → List A → Option (A × List A)
take_first [] = none
take_first (a ∷ q) = some (a, q)

pub list_takes :
    {A : Type 0} (q : List A) (a : A) (q' : List A) → take_first q ≡ some (a, q') → q ≡ a ∷ q'
list_takes [] a q' e = cc
list_takes (b ∷ q) a q' e = ground arith

pub list_empty : {A : Type 0} (q : List A) → take_first q ≡ none → q ≡ []
list_empty [] e = refl
list_empty (b ∷ q) e = cc

-- A list is a channel.
abbrev pub list_channel : (A : Type 0) → Channel A
list_channel A = record {
  Queue = List A;
  contents = λ q. q;
  new = [];
  send = λ a q. q ++ a ∷ [];
  wait_time = take_first;
  used = length;
  new_is_empty = refl;
  send_appends = λ a q. refl;
  wait_takes = list_takes;
  wait_empty = list_empty;
  used_counts = λ q. refl;
}
