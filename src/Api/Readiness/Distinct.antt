-- ===== src/Api/Readiness/Distinct.antt =====
-- Counting distinct texts, as `COUNT(DISTINCT …)` does.
use wcashexplorer.Base.{
  suc, ◌≤◌, ◌≡◌, refl, ap, ◌∙◌, Bool, true, false, ◌||◌, List, [], ◌∷◌, any, arith, if◌then◌else◌,
  Bool-cases, inl, inr,
}
use mathlib.Core.Path.{subst}
use wcashexplorer.Base.Text.{Text, text_eq, text_eq→eq, text_eq_refl}
use wcashexplorer.Base.Table.{delete}
use wcashexplorer.Api.Readiness.{count_distinct}

abbrev pub has : Text → List Text → Bool
has t ts = any (text_eq t) ts

text_eq_sym : (s t : Text) → text_eq s t ≡ false → text_eq t s ≡ false
text_eq_sym s t h = elim (Bool-cases (text_eq t s)) [
  | inl e ↦ cc (rw (text_eq→eq t s e) at h, text_eq_refl s)
  | inr e ↦ e
]

-- What is deleted under another key is not missed.
has-delete :
    (t s : Text) (ts : List Text) → text_eq s t ≡ false → has t (delete (text_eq s) ts) ≡ has t ts
unfolding delete
has-delete t s [] h = refl
has-delete t s (x ∷ ts) h = elim (Bool-cases (text_eq s x)) [
  | inl e ↦
      let other : text_eq t x ≡ false = rw (← text_eq→eq s x e) (text_eq_sym s t h) in
      rw (e, other) (has-delete t s ts h)
  | inr e ↦ rw e (ap (λ b. text_eq t x || b) (has-delete t s ts h))
]

count_distinct-delete :
    (s : Text) (ts : List Text)
    → (if has s ts
        then suc (count_distinct (delete (text_eq s) ts))
        else count_distinct (delete (text_eq s) ts))
      ≡ count_distinct ts
unfolding count_distinct delete
count_distinct-delete s [] = refl
count_distinct-delete s (x ∷ ts) =
    let before = count_distinct-delete s ts in
    elim (Bool-cases (text_eq s x)) [
      | inl e ↦ elim (Bool-cases (has s ts)) [
        | inl h ↦ rw (e, ← text_eq→eq s x e, h) (rw h at before)
        | inr h ↦ rw (e, ← text_eq→eq s x e, h) (ap suc (rw h at before))
      ]
      | inr e ↦ elim (Bool-cases (has s ts)) [
        | inl h ↦ elim (Bool-cases (has x ts)) [
          | inl k ↦ rw (e, h, has-delete x s ts e, k) (rw h at before)
          | inr k ↦ rw (e, h, has-delete x s ts e, k) (ap suc (rw h at before))
        ]
        | inr h ↦ elim (Bool-cases (has x ts)) [
          | inl k ↦ rw (e, h, has-delete x s ts e, k) (rw h at before)
          | inr k ↦ rw (e, h, has-delete x s ts e, k) (ap suc (rw h at before))
        ]
      ]
    ]

abbrev pub Within : List Text → List Text → Type 0
Within ts us = (t : Text) → has t ts ≡ true → has t us ≡ true

deleted_one :
    (s : Text) (ts : List Text)
    → has s ts ≡ true
    → suc (count_distinct (delete (text_eq s) ts)) ≡ count_distinct ts
deleted_one s ts h = let before = count_distinct-delete s ts in rw h at before

count_distinct-Within : (ts us : List Text) → Within ts us → count_distinct ts ≤ count_distinct us
unfolding count_distinct
count_distinct-Within [] us h = omega arith
count_distinct-Within (s ∷ ts) us h = elim (Bool-cases (has s ts)) [
  | inl e ↦ let rest = count_distinct-Within ts us (λ t k. h t (rw k (ground arith))) in rw e rest
  | inr e ↦
      let there : has s us ≡ true = h s (rw (text_eq_refl s) refl) in
      let one = deleted_one s us there in
      let rest = count_distinct-Within ts (delete (text_eq s) us) λ t k.
        (let other : text_eq s t ≡ false = elim (Bool-cases (text_eq s t)) [
          | inl same ↦ cc (subst (λ x. has x ts ≡ false) (text_eq→eq s t same) e, k)
          | inr other ↦ other
        ] in
          has-delete t s us other ∙ h t (rw k (ground arith))) in
      rw e (omega (arith, rest, one))
]

Within-cons : (t : Text) (ts us : List Text) → has t us ≡ true → Within ts us → Within (t ∷ ts) us
Within-cons t ts us k h s e = elim (Bool-cases (text_eq s t)) [
  | inl same ↦ rw (text_eq→eq s t same) k
  | inr other ↦ h s (rw other at e)
]

-- Lists of as many distinct texts, one within the other, have the same ones.
pub Within-eq :
    (ts us : List Text) → Within ts us → count_distinct ts ≡ count_distinct us → Within us ts
unfolding count_distinct
Within-eq ts us h same t k = elim (Bool-cases (has t ts)) [
  | inl e ↦ e
  | inr e ↦
      let more = count_distinct-Within (t ∷ ts) us (Within-cons t ts us k h) in
      absurd (ground (arith, same, e, rw (count_distinct, e) at more))
]

-- Two of them at least: two that differ.
pub count_distinct-two :
    (ts : List Text)
    → 2 ≤ count_distinct ts
    → (s : Text) × (t : Text) × (has s ts ≡ true) × (has t ts ≡ true) × (text_eq s t ≡ false)
unfolding count_distinct
count_distinct-two [] h = absurd (omega (arith, h))
count_distinct-two (s ∷ []) h = absurd (omega (arith, h))
count_distinct-two (s ∷ t ∷ ts) h = elim (Bool-cases (has s (t ∷ ts))) [
  | inl e ↦
      let (a, b, ha, hb, other) = count_distinct-two (t ∷ ts) (rw (count_distinct, e) at h) in
      (a, b, (rw ha (ground arith)), (rw hb (ground arith)), other)
  | inr e ↦
      (s, t, (rw (text_eq_refl s) refl), (rw (text_eq_refl t) (ground arith)), ground (arith, e))
]
