-- ===== src/Io.antt =====
-- Actions that ask the outside. The world answers as a function of the moment of the question, so
-- that two equal questions may have different answers; an action moves the moment on.
use wcashexplorer.Base.{ℕ, suc, ◌≡◌, refl, List, [], ◌∷◌}
use wcashexplorer.Error.{Result, ok, err}

abbrev pub Io {ℓ} : Type ℓ → Type ℓ
Io A = ℕ → Result A × ℕ

module _ {ℓ} {A : Type ℓ} where
  unfoldable pub pure : A → Io A
  pure a t = (ok a, t)

  -- A computation that asks nothing.
  unfoldable pub lift : Result A → Io A
  lift r t = (r, t)

  -- One question.
  unfoldable pub ask : (ℕ → Result A) → Io A
  ask answer t = (answer t, suc t)

  -- The result as a value: the error does not end the caller.
  unfoldable pub attempt : Io A → Io (Result A)
  attempt m t = let (r, t') = m t in (ok r, t')

module _ {ℓ κ} {A : Type ℓ} {B : Type κ} where
  abbrev continue : Result A → (A → Io B) → Io B
  continue (ok a) f t = f a t
  continue (err e) f t = (err e, t)

  infixl 5 ◌>>=◌ ◌>>◌
  unfoldable pub ◌>>=◌ : Io A → (A → Io B) → Io B
  unfolding pure lift ask attempt
  ◌>>=◌ m f t = let (r, t') = m t in continue r f t'

  abbrev pub ◌>>◌ : Io A → Io B → Io B
  m >> n = m >>= λ _. n

  -- What a successful block did: its first action succeeded, and the rest ran from there.
  continue-ok :
      (r : Result A) (f : A → Io B) (t : ℕ) {b : B}
      → (continue r f t).0 ≡ ok b
      → (a : A) × (r ≡ ok a) × ((f a t).0 ≡ ok b)
  continue-ok (ok a) f t h = (a, refl, h)
  continue-ok (err e) f t h = cc

  pub >>=-eq-ok :
      (m : Io A) (f : A → Io B) (t : ℕ) {b : B}
      → ((m >>= f) t).0 ≡ ok b
      → (a : A) × ((m t).0 ≡ ok a) × ((f a (m t).1).0 ≡ ok b)
  unfolding ◌>>=◌
  >>=-eq-ok m f t h = continue-ok (m t).0 f (m t).1 h

module _ {ℓ κ} {A : Type ℓ} {B : Type κ} where
  -- `join_all` over a list, in its order.
  unfoldable pub traverse : (A → Io B) → List A → Io (List B)
  unfolding ◌>>=◌
  traverse f [] = pure []
  traverse f (x ∷ xs) = do y ← f x; ys ← traverse f xs; pure (y ∷ ys)
