-- ===== src/Base/Text.antt =====
-- A Rust `String` as the list of its UTF-8 bytes. Literals are ASCII, so their code points serve.
use Prim.Native.Nat.{ℕ}
use Prim.Native.Char.{code}
use Prim.Native.String.{String}
use mathlib.Core.Path.{◌≡◌, refl, ap}
use mathlib.Core.Logic.{◌↔◌}
use mathlib.Core.Bool.{Bool, true, false, ◌&&◌, ◌||◌}
use mathlib.Core.Option.{Option, none, some}
use mathlib.Core.List.{List, [], ◌∷◌}
use native.Mathlib.Omega.{arith}
use wcashexplorer.Base.Tests.{leb, ◌==◌}

abbrev pub Text : Type 0
Text = List ℕ

unfoldable pub text : String → Text
text String.[] = []
text (String.◌∷◌ c s) = code c ∷ text s

unfoldable pub text_eq : Text → Text → Bool
text_eq [] [] = true
text_eq [] (b ∷ t) = false
text_eq (a ∷ s) [] = false
text_eq (a ∷ s) (b ∷ t) = a == b && text_eq s t

pub text_eq_refl : (s : Text) → text_eq s s ≡ true
unfolding text_eq
text_eq_refl [] = refl
text_eq_refl (a ∷ s) = ground (arith, text_eq_refl s)

pub text_eq→eq : (s t : Text) → text_eq s t ≡ true → s ≡ t
unfolding text_eq
text_eq→eq [] [] h = refl
text_eq→eq [] (b ∷ t) h = cc
text_eq→eq (a ∷ s) [] h = cc
text_eq→eq (a ∷ s) (b ∷ t) h = ground (arith, text_eq→eq s t)

pub text_eq_iff : (s t : Text) → (text_eq s t ≡ true) ↔ (s ≡ t)
text_eq_iff s t = (text_eq→eq s t, λ e. rw e (text_eq_refl t))

-- `Option<String>` and `Option<&str>` compared by `==`.
unfoldable pub opt_text_eq : Option Text → Option Text → Bool
opt_text_eq none none = true
opt_text_eq none (some t) = false
opt_text_eq (some s) none = false
opt_text_eq (some s) (some t) = text_eq s t

pub opt_text_eq→eq : (a b : Option Text) → opt_text_eq a b ≡ true → a ≡ b
unfolding opt_text_eq
opt_text_eq→eq none none h = refl
opt_text_eq→eq none (some t) h = cc
opt_text_eq→eq (some s) none h = cc
opt_text_eq→eq (some s) (some t) h = ap some (text_eq→eq s t h)

pub opt_text_eq_refl : (a : Option Text) → opt_text_eq a a ≡ true
unfolding opt_text_eq
opt_text_eq_refl none = refl
opt_text_eq_refl (some s) = text_eq_refl s

-- `u8::is_ascii_digit` and `u8::is_ascii_hexdigit`.
unfoldable pub is_ascii_digit : ℕ → Bool
is_ascii_digit b = leb b'0' b && leb b b'9'

unfoldable pub is_ascii_hexdigit : ℕ → Bool
unfolding is_ascii_digit
is_ascii_hexdigit b = is_ascii_digit b || (leb b'a' b && leb b b'f') || (leb b'A' b && leb b b'F')
