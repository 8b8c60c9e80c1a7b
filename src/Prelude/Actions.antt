-- ===== src/Prelude/Actions.antt =====
-- Actions: functions that change a state and return a value.
abbrev pub Action : Type 0 → Type 0 → Type 0
Action S A = S → A × S

abbrev pub pure : {S A : Type 0} → A → Action S A
pure a s = (a, s)

infixl 5 ◌>>=◌ ◌>>◌
abbrev pub ◌>>=◌ : {S A B : Type 0} → Action S A → (A → Action S B) → Action S B
◌>>=◌ m f s = let (a, s') = m s in f a s'

abbrev pub ◌>>◌ : {S A B : Type 0} → Action S A → Action S B → Action S B
m >> n = m >>= λ _. n
