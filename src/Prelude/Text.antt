-- ===== src/Prelude/Text.antt =====
-- Go's byte slices and strings: lists of numbers below 256, equal as lists.
use Prim.Native.Nat.{ℕ}
use Prim.Native.Char.{code}
use Prim.Native.String.{String}
use mathlib.Core.Path.{◌≡◌, refl, ap₂, ap}
use mathlib.Core.Logic.{◌↔◌, ite, dite}
use mathlib.Core.Bool.{Bool, true, false}
use mathlib.Core.List.{List, [], ◌∷◌}
use native.Mathlib.Omega.{arith}
use native.Mathlib.Decide.{ℕ_discrete}

abbrev pub Bytes : Type 0
Bytes = List ℕ

-- The bytes of an ASCII text.
abbrev pub codes : String → Bytes
codes String.[] = []
codes (String.◌∷◌ c s) = code c ∷ codes s

head_of : Bytes → ℕ
head_of [] = 0
head_of (a ∷ s) = a

rest_of : Bytes → Bytes
rest_of [] = []
rest_of (a ∷ s) = s

-- Shut in proofs, where a split on `s == t` gives the equation or its negation.
unfoldable pub bytes_dec : Discrete Bytes
unfolding head_of rest_of ℕ_discrete
bytes_dec [] [] = yes refl
bytes_dec [] (b ∷ t) = no (λ p. cc)
bytes_dec (a ∷ s) [] = no (λ p. cc)
bytes_dec (a ∷ s) (b ∷ t) =
    dite (ℕ_discrete a b)
      (λ p. dite (bytes_dec s t) (λ q. yes (ap₂ ◌∷◌ p q)) (λ n. no (λ e. n (ap rest_of e))))
      (λ n. no (λ e. n (ap head_of e)))

infix 50 ◌==◌
abbrev pub ◌==◌ : Bytes → Bytes → Bool
s == t = ite (bytes_dec s t) true false

pub ==_iff : (s t : Bytes) → ((s == t) ≡ true) ↔ (s ≡ t)
==_iff s t = ground arith

pub ==_refl : (s : Bytes) → (s == s) ≡ true
==_refl s = (==_iff s s).1 refl

test_eq : ((codes "ab" == codes "ab") ≡ true) × ((codes "ab" == codes "ac") ≡ false)
unfolding bytes_dec
test_eq = (refl, refl)
