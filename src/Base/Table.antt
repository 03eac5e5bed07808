-- ===== src/Base/Table.antt =====
-- A database table as the list of its rows, and the statements that the source runs on one.
-- A key is a test on rows.
use wcashexplorer.Base.{
  ℕ, ◌≡◌, refl, Bool, true, false, Option, none, some, List, [], ◌∷◌, arith, if◌then◌else◌, leb,
  Bool-cases, inl, inr,
}

module _ {ℓ} {A : Type ℓ} where
  -- `SELECT … WHERE key`, at most one row.
  unfoldable pub find : (A → Bool) → List A → Option A
  find p [] = none
  find p (x ∷ xs) = if p x then some x else find p xs

  -- `SELECT … WHERE test`.
  unfoldable pub select : (A → Bool) → List A → List A
  select p [] = []
  select p (x ∷ xs) = let rest = select p xs in if p x then x ∷ rest else rest

  -- `DELETE … WHERE test`.
  unfoldable pub delete : (A → Bool) → List A → List A
  delete p [] = []
  delete p (x ∷ xs) = let rest = delete p xs in if p x then rest else x ∷ rest

  -- `UPDATE … WHERE test`.
  unfoldable pub update : (A → Bool) → (A → A) → List A → List A
  update p f [] = []
  update p f (x ∷ xs) = (if p x then f x else x) ∷ update p f xs

  -- `INSERT … ON CONFLICT (key) DO NOTHING`.
  unfoldable pub insert_new : (A → Bool) → A → List A → List A
  insert_new p row [] = row ∷ []
  insert_new p row (x ∷ xs) = if p x then x ∷ xs else x ∷ insert_new p row xs

  -- `INSERT … ON CONFLICT (key) DO UPDATE SET …`: `merge` makes the new row from the stored one.
  unfoldable pub upsert : (A → Bool) → (A → A) → A → List A → List A
  upsert p merge row [] = row ∷ []
  upsert p merge row (x ∷ xs) = if p x then merge x ∷ xs else x ∷ upsert p merge row xs

  -- `ORDER BY key`, stable.
  unfoldable pub insert_by : (A → ℕ) → A → List A → List A
  insert_by key a [] = a ∷ []
  insert_by key a (x ∷ xs) = if leb (key a) (key x) then a ∷ x ∷ xs else x ∷ insert_by key a xs

  unfoldable pub order_by : (A → ℕ) → List A → List A
  unfolding insert_by
  order_by key [] = []
  order_by key (x ∷ xs) = insert_by key x (order_by key xs)

module _ {ℓ} {A : Type ℓ} where
  pub find-holds : (p : A → Bool) (xs : List A) {a : A} → find p xs ≡ some a → p a ≡ true
  unfolding find
  find-holds p [] h = cc
  find-holds p (x ∷ xs) {a} h = elim (Bool-cases (p x)) [
    | inl yes_x ↦ ground (arith, yes_x)
    | inr no_x ↦ find-holds p xs (rw no_x at h)
  ]

  -- The row under the key is the stored one, or the new one if there was none.
  pub find-insert_new :
      (p : A → Bool) (row : A) (xs : List A)
      → p row ≡ true
      → find p (insert_new p row xs) ≡ elim (find p xs) [ some a ↦ some a | none ↦ some row ]
  unfolding find insert_new
  find-insert_new p row [] h = rw h
  find-insert_new p row (x ∷ xs) h = elim (Bool-cases (p x)) [
    | inl yes_x ↦ rw (yes_x, yes_x)
    | inr no_x ↦ rw (no_x, no_x) (find-insert_new p row xs h)
  ]

  -- A row that was found is still found after an insertion under any key.
  pub find-insert_new-some :
      (p q : A → Bool) (row : A) (xs : List A) {a : A}
      → find p xs ≡ some a
      → find p (insert_new q row xs) ≡ some a
  unfolding find insert_new
  find-insert_new-some p q row [] h = cc
  find-insert_new-some p q row (x ∷ xs) h = elim (Bool-cases (q x)) [
    | inl yes_q ↦ rw yes_q h
    | inr no_q ↦ rw no_q (elim (Bool-cases (p x)) [
      | inl yes_p ↦ rw yes_p (rw yes_p at h)
      | inr no_p ↦ rw no_p (find-insert_new-some p q row xs (rw no_p at h))
    ])
  ]

  -- An insertion under a key that the test excludes is not seen.
  pub find-insert_new_ne :
      (p q : A → Bool) (row : A) (xs : List A)
      → p row ≡ false
      → find p (insert_new q row xs) ≡ find p xs
  unfolding find insert_new
  find-insert_new_ne p q row [] h = rw h
  find-insert_new_ne p q row (x ∷ xs) h = elim (Bool-cases (q x)) [
    | inl yes_q ↦ rw yes_q
    | inr no_q ↦ rw no_q (elim (Bool-cases (p x)) [
      | inl yes_p ↦ rw yes_p
      | inr no_p ↦ rw no_p (find-insert_new_ne p q row xs h)
    ])
  ]

  -- A deletion hides what its test covers, and nothing that it does not.
  pub find-delete_all :
      (p q : A → Bool) (xs : List A)
      → ((a : A) → p a ≡ true → q a ≡ true)
      → find p (delete q xs) ≡ none
  unfolding find delete
  find-delete_all p q [] h = refl
  find-delete_all p q (x ∷ xs) h = elim (Bool-cases (q x)) [
    | inl yes_q ↦ rw yes_q (find-delete_all p q xs h)
    | inr no_q ↦ rw no_q (elim (Bool-cases (p x)) [
      | inl yes_p ↦ cc (h x yes_p)
      | inr no_p ↦ rw no_p (find-delete_all p q xs h)
    ])
  ]

  pub find-delete_none :
      (p q : A → Bool) (xs : List A)
      → ((a : A) → p a ≡ true → q a ≡ false)
      → find p (delete q xs) ≡ find p xs
  unfolding find delete
  find-delete_none p q [] h = refl
  find-delete_none p q (x ∷ xs) h = elim (Bool-cases (p x)) [
    | inl yes_p ↦ rw (h x yes_p) (rw yes_p)
    | inr no_p ↦ elim (Bool-cases (q x)) [
      | inl yes_q ↦ rw (yes_q, no_p) (find-delete_none p q xs h)
      | inr no_q ↦ rw (no_q, no_p) (find-delete_none p q xs h)
    ]
  ]

  -- An update that keeps the key.
  pub find-update :
      (p : A → Bool) (f : A → A) (xs : List A)
      → ((a : A) → p a ≡ true → p (f a) ≡ true)
      → find p (update p f xs) ≡ elim (find p xs) [ some a ↦ some (f a) | none ↦ none ]
  unfolding find update
  find-update p f [] h = refl
  find-update p f (x ∷ xs) h = elim (Bool-cases (p x)) [
    | inl yes_p ↦ rw (yes_p, h x yes_p)
    | inr no_p ↦ rw (no_p, no_p) (find-update p f xs h)
  ]
