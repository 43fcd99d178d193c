-- ===== src/Monad.antt =====
-- A Rust method on `&mut self` that returns `Result`: it takes the state to a result and the state
-- afterwards, and a failing step keeps the state that it left behind. `?` is the bind.

-- `out_of_fuel` is no Rust value: a loop of the model that stopped before the code's loop would.
pub data Result (E A : Type 0) : Type 0 where
  ok : A → Result E A
  err : E → Result E A
  out_of_fuel : Result E A

abbrev pub M : Type 0 → Type 0 → Type 0 → Type 0
M S E A = S → Result E A × S

-- Goes on after a step, or passes its failure on.
abbrev pub go_on : {S E A B : Type 0} → (A → M S E B) → Result E A → S → Result E B × S
go_on f (ok a) s = f a s
go_on f (err e) s = (err e, s)
go_on f out_of_fuel s = (out_of_fuel, s)

infixl 5 ◌>>=◌ ◌>>◌
abbrev pub ◌>>=◌ : {S E A B : Type 0} → M S E A → (A → M S E B) → M S E B
◌>>=◌ m f s = go_on f (m s).0 (m s).1

abbrev pub ◌>>◌ : {S E B : Type 0} → M S E (Unit {0}) → M S E B → M S E B
m >> k = m >>= λ _. k

abbrev pub pure : {S E A : Type 0} → A → M S E A
pure a s = (ok a, s)

abbrev pub fail : {S E A : Type 0} → E → M S E A
fail e s = (err e, s)

abbrev pub map_ok : {S E A B : Type 0} → (A → B) → M S E A → M S E B
map_ok f m = m >>= λ a. pure (f a)
