-- ===== src/Base/Io.antt =====
-- A call of the operating system reads and changes the world `W`, and gives a result or an error.
-- `?` behind such a call is the bind of a `do` block.
use gaea.Base.Outcomes.{ok, err, IoResult}

abbrev pub Io : Type 0 → Type 0 → Type 0
Io W A = W → IoResult A × W

infixl 5 ◌>>=◌ ◌>>◌
abbrev pub ◌>>=◌ : {W A B : Type 0} → Io W A → (A → Io W B) → Io W B
◌>>=◌ m f w = let (r, w') = m w in elim r [ err e ↦ (err e, w') | ok a ↦ f a w' ]

abbrev pub ◌>>◌ : {W B : Type 0} → Io W (Unit {0}) → Io W B → Io W B
m >> k = m >>= λ _. k

abbrev pub pure : {W A : Type 0} → A → Io W A
pure a w = (ok a, w)
