-- ===== src/Server/Connections.antt =====
-- The hash map of examples/tcp_server.rs: an association list from ids.
use mathlib.Core.Option.{some-injective}
use mathlib.Core.List.Perm
use gaea.Base.{◌⊎◌, ap, sym, ◌∙◌}
use gaea.Base.{
  ℕ, ◌≤◌, ◌<◌, ◌≡◌, refl, inl, inr, false, Option, none, some, List, [], ◌∷◌, Perm, arith, ◌==◌,
  if◌then◌else◌, ==_iff, Bool-cases, All,
}

abbrev pub HashMap : Type 0 → Type 0
HashMap V = List (ℕ × V)

module _ {V : Type 0} where
  unfoldable pub get : ℕ → HashMap V → Option V
  get id [] = none
  get id ((key, v) ∷ rest) = let found = get id rest in if key == id then some v else found

  -- `HashMap::remove`: the value, and the map without it.
  unfoldable pub remove : ℕ → HashMap V → Option (V × HashMap V)
  remove id [] = none
  remove id ((key, v) ∷ rest) =
      let found = remove id rest in
      if key == id
      then some (v, rest)
      else (elim found [ none ↦ none | some (u, others) ↦ some (u, (key, v) ∷ others) ])

  -- `HashMap::insert`: the value that it replaces, and the map.
  unfoldable pub insert : ℕ → V → HashMap V → Option V × HashMap V
  unfolding remove
  insert id v m = elim (remove id m) [
    | none ↦ (none, (id, v) ∷ m)
    | some (old, others) ↦ (some old, (id, v) ∷ others)
  ]

  -- No two entries have the same key.
  abbrev pub Distinct : HashMap V → Type 0
  Distinct [] = Unit {0}
  Distinct ((key, v) ∷ rest) = (get key rest ≡ none) × Distinct rest

  abbrev pub Below : ℕ → HashMap V → Type 0
  Below bound m = All (λ x. x.0 < bound) m

  pub Below-le : (a b : ℕ) (m : HashMap V) → a ≤ b → Below a m → Below b m
  Below-le a b [] h k = tt
  Below-le a b (x ∷ m) h (k, ks) = (omega arith, Below-le a b m h ks)

  pub get_fresh : (id : ℕ) (m : HashMap V) → Below id m → get id m ≡ none
  unfolding get
  get_fresh id [] h = refl
  get_fresh id ((key, v) ∷ rest) (h, hs) =
      let miss : (key == id) ≡ false = ground arith in rw miss (get_fresh id rest hs)

  get-missing :
      (id key : ℕ) (v : V) (rest : HashMap V)
      → get id ((key, v) ∷ rest) ≡ none
      → ((key == id) ≡ false) × (get id rest ≡ none)
  unfolding get
  get-missing id key v rest e = elim (Bool-cases (key == id)) [
    | inl hit ↦ absurd (ground arith)
    | inr miss ↦ (miss, rw miss at e)
  ]

  remove_missing : (id : ℕ) (m : HashMap V) → get id m ≡ none → remove id m ≡ none
  unfolding get remove
  remove_missing id [] e = refl
  remove_missing id ((key, v) ∷ rest) e = elim (Bool-cases (key == id)) [
    | inl hit ↦ absurd (ground arith)
    | inr miss ↦ rw (miss, remove_missing id rest (ground arith)) refl
  ]

  -- A key that is not in the map replaces nothing.
  pub insert_fresh :
      (id : ℕ) (v : V) (m : HashMap V) → get id m ≡ none → insert id v m ≡ (none, (id, v) ∷ m)
  unfolding insert
  insert_fresh id v m e = rw (remove_missing id m e, insert) refl

  -- What is left of a map without one of its entries.
  pub record Removed (id : ℕ) (m : HashMap V) (v : V) (rest : HashMap V) : Type 0 where
    pub removed : remove id m ≡ some (v, rest)
    pub perm : Perm ((id, v) ∷ rest) m
    pub missing : (key : ℕ) → get key m ≡ none → get key rest ≡ none
    pub distinct : Distinct m → Distinct rest
    pub below : (bound : ℕ) → Below bound m → Below bound rest
    pub others : Distinct m → (key : ℕ) → (get key rest ≡ none) ⊎ (get key rest ≡ get key m)

  others_first :
      (key : ℕ) (v : V) (m : HashMap V) (k : ℕ)
      → get key m ≡ none
      → (get k m ≡ none) ⊎ (get k m ≡ get k ((key, v) ∷ m))
  unfolding get
  others_first key v m k missing = elim (Bool-cases (key == k)) [
    | inl hit ↦ inl (ap (λ j. get j m) (sym ((==_iff key k).0 hit)) ∙ missing)
    | inr miss ↦ inr (rw miss refl)
  ]

  others_behind :
      (key : ℕ) (v : V) (rest m : HashMap V) (k : ℕ)
      → (get k rest ≡ none) ⊎ (get k rest ≡ get k m)
      → (get k ((key, v) ∷ rest) ≡ none) ⊎ (get k ((key, v) ∷ rest) ≡ get k ((key, v) ∷ m))
  unfolding get
  others_behind key v rest m k h = elim (Bool-cases (key == k)) [
    | inl hit ↦ inr (rw hit refl)
    | inr miss ↦ rw miss h
  ]

  -- An entry that is found can be removed.
  pub remove_found :
      (id : ℕ) (m : HashMap V) (v : V)
      → get id m ≡ some v
      → (rest : HashMap V) × Removed id m v rest
  unfolding get remove
  remove_found id [] v e = cc
  remove_found id ((key, u) ∷ m) v e = elim (Bool-cases (key == id)) [
    | inl hit ↦
        let same : key ≡ id = (==_iff key id).0 hit in
        let value : u ≡ v = some-injective _ _ (rw hit at e) in
        (
          m,
          record {
            removed = rw (hit, value) refl;
            perm = rw (same, value) Perm.rfl;
            missing = λ k h. (get-missing k key u m h).1;
            distinct = λ d. d.1;
            below = λ b h. h.1;
            others = λ d k. others_first key u m k d.0;
          },
        )
    | inr miss ↦
        let (rest, r) = remove_found id m v (rw miss at e) in
        (
          (key, u) ∷ rest,
          record {
            removed = rw (miss, r.removed) refl;
            perm = Perm.trans (Perm.swap (key, u) (id, v) rest) (Perm.cons (key, u) r.perm);
            missing = λ k h.
                let (other, rest_h) = get-missing k key u m h in
                rw (other, r.missing k rest_h) refl;
            distinct = λ d. (r.missing key d.0, r.distinct d.1);
            below = λ b h. (h.0, r.below b h.1);
            others = λ d k. others_behind key u rest m k (r.others d.1 k);
          },
        )
  ]
