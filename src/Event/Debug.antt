-- ===== src/Event/Debug.antt =====
-- src/event.rs: the `Debug` output of a readiness set, as the strings given to `write_str`.
-- The formatter is one that takes every string; the propagation of its errors is left out.
use Prim.Native.String.{String}
use gaea.Base.{
  ℕ, bit_and, ◌≡◌, Bool, true, false, List, [], ◌∷◌, ◌++◌, ◌==◌, ◌!=◌, if◌then◌else◌, arith,
}
use gaea.Event.{Ready, readable, writable, error, timer, hup}

-- The variable `first` and what was written so far.
record Written : Type 0 where
  first : Bool
  out : List String

-- One repetition of the macro, for `$flag`.
write_flag : Ready → ℕ → String → Written → Written
write_flag self flag name w =
    if bit_and self.bits flag != 0
    then (if w.first
        then record { first = false; out = w.out ++ name ∷ [] }
        else record w { out = w.out ++ " | " ∷ name ∷ [] })
    else w

pub fmt_debug : Ready → List String
unfolding write_flag
fmt_debug self =
    if self.bits == 0
    then "(empty)" ∷ []
    else let start : Written = record { first = true; out = [] } in
      let w = write_flag self readable "READABLE" start in
      let w = write_flag self writable "WRITABLE" w in
      let w = write_flag self error "ERROR" w in
      let w = write_flag self timer "TIMER" w in let w = write_flag self hup "HUP" w in w.out

-- The names of the flags that are set, in the order of their bits.
abbrev pub name_if : Ready → ℕ → String → List String → List String
name_if r flag name rest = if bit_and r.bits flag != 0 then name ∷ rest else rest

abbrev pub names : Ready → List String
names r = name_if r readable "READABLE" (
    name_if r writable "WRITABLE"
      (name_if r error "ERROR" (name_if r timer "TIMER" (name_if r hup "HUP" []))))

abbrev prefixed : List String → List String
prefixed [] = []
prefixed (x ∷ xs) = " | " ∷ x ∷ prefixed xs

abbrev pub joined : List String → List String
joined [] = []
joined (x ∷ xs) = x ∷ prefixed xs

-- A set that is not empty is printed as the names of its flags, in the order of their bits, joined
-- by " | "; the empty set is printed as "(empty)".
pub fmt_debug_lem :
    (r : Ready) → fmt_debug r ≡ (if r.bits == 0 then "(empty)" ∷ [] else joined (names r))
unfolding fmt_debug
fmt_debug_lem r = ground arith
