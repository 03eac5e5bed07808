-- ===== src/Base/Members.antt =====
-- Members of a list, by the tests and the queries that find them.
use wcashexplorer.Base.{◌≡◌, refl, Bool, true, some, List, [], ◌∷◌, any, Bool-cases, inl, inr, ◌⊎◌}
use wcashexplorer.Base.Table.{find}

module _ {A : Type 0} where
  abbrev pub IsMember : A → List A → Type 0
  IsMember a [] = ⊥
  IsMember a (x ∷ xs) = (a ≡ x) ⊎ IsMember a xs

  -- A member that passes the test.
  abbrev pub Passes : (A → Bool) → List A → Type 0
  Passes p xs = (x : A) × IsMember x xs × (p x ≡ true)

  later : (p : A → Bool) (x : A) (xs : List A) → Passes p xs → Passes p (x ∷ xs)
  later p x xs (y, m, h) = (y, inr m, h)

  pub any-Passes : (p : A → Bool) (xs : List A) → any p xs ≡ true → Passes p xs
  any-Passes p [] h = cc
  any-Passes p (x ∷ xs) h = elim (Bool-cases (p x)) [
    | inl holds ↦ (x, inl refl, holds)
    | inr fails ↦ later p x xs (any-Passes p xs (rw fails at h))
  ]

  some_eq : {a b : A} → some a ≡ some b → b ≡ a
  some_eq h = cc

  pub find-IsMember : (p : A → Bool) (xs : List A) {a : A} → find p xs ≡ some a → IsMember a xs
  unfolding find
  find-IsMember p [] h = cc
  find-IsMember p (x ∷ xs) h = elim (Bool-cases (p x)) [
    | inl holds ↦ inl (some_eq (rw holds at h))
    | inr fails ↦ inr (find-IsMember p xs (rw fails at h))
  ]
