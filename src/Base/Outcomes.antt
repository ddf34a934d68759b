-- ===== src/Base/Outcomes.antt =====
-- `Result` and the errors of the operating system.
use mathlib.Core.Path.{◌≡◌, refl}
use mathlib.Core.Logic.{◌⊎◌, inl, inr}
use Prim.Native.Nat.{ℕ}

-- `Result<A, E>`.
pub data Result {ℓ κ} (A : Type ℓ) (E : Type κ) : Type (ℓ ⊔ κ) where
  ok : A → Result A E
  err : E → Result A E

-- `io::Error`, told apart as far as the code tells errors apart: the kinds `WouldBlock` and
-- `Interrupted`, the raw error `EINPROGRESS`, and any other raw error.
pub data IoError : Type 0 where
  would_block interrupted in_progress : IoError
  raw : ℕ → IoError

-- `io::Result<A>`.
abbrev pub IoResult {ℓ} : Type ℓ → Type ℓ
IoResult A = Result A IoError

-- How a call returned.
pub Result-cases {ℓ ℓ'} :
    {A : Type ℓ} {E : Type ℓ'} {W : Type 0} (x : Result A E × W)
    → ((a : A) × (w : W) × (x ≡ (ok a, w))) ⊎ ((e : E) × (w : W) × (x ≡ (err e, w)))
Result-cases (ok a, w) = inl (a, w, refl)
Result-cases (err e, w) = inr (e, w, refl)
