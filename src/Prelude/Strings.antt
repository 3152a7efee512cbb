-- ===== src/Prelude/Strings.antt =====
-- Functions of Go's `strings` package that the source calls, over bytes.
use Prim.Native.Nat.{ℕ, ◌+◌, ◌-◌}
use mathlib.Core.Path.{◌≡◌, refl, sym, subst}
use mathlib.Core.Logic.{◌↔◌, ◌≢◌, inl, inr}
use mathlib.Core.Bool.{Bool, true, ◌&&◌}
use mathlib.Core.List.{List, [], ◌∷◌, ◌++◌, map}
use native.Mathlib.Omega.{arith}
use grafain.Prelude.Tests.{leb, eqb, if◌then◌else◌, Bool-cases}
use grafain.Prelude.Lists.{
  All, length, take, drop, length-append, take-append-drop, take-append_length, drop-append_length,
}
use grafain.Prelude.Text.{Bytes, ◌==◌, ==_iff}

-- `strings.HasPrefix(s, prefix)`
unfoldable pub has_prefix : Bytes → Bytes → Bool
has_prefix s prefix = leb (length prefix) (length s) && (take (length prefix) s == prefix)

-- `strings.HasSuffix(s, suffix)`
unfoldable pub has_suffix : Bytes → Bytes → Bool
has_suffix s suffix =
    leb (length suffix) (length s) && (drop (length s - length suffix) s == suffix)

-- `strings.ReplaceAll(s, old, new)` where both are one byte
unfoldable pub replace_byte : ℕ → ℕ → Bytes → Bytes
replace_byte old new = map (λ c. if eqb c old then new else c)

-- `strings.ToLower` of an ASCII text
unfoldable pub to_lower : Bytes → Bytes
to_lower = map (λ c. if leb b'A' c && leb c b'Z' then c + 32 else c)

-- A prefix is what the text can be split behind.
pub has_prefix_iff : (s p : Bytes) → (has_prefix s p ≡ true) ↔ ((t : Bytes) × (s ≡ p ++ t))
unfolding has_prefix
has_prefix_iff s p = (
  λ h. (
    drop (length p) s,
    sym (subst (λ q. q ++ drop (length p) s ≡ s) (same h) (take-append-drop (length p) s)),
  ),
  λ (t, e).
      subst (λ s. (leb (length p) (length s) && (take (length p) s == p)) ≡ true) (sym e)
        (ground (arith, length-append p t, take-append_length p t)),
)
  where
    same : (leb (length p) (length s) && (take (length p) s == p)) ≡ true → take (length p) s ≡ p
    same h = ground (arith, ==_iff (take (length p) s) p)

pub has_prefix-append : (p t : Bytes) → has_prefix (p ++ t) p ≡ true
has_prefix-append p t = (has_prefix_iff (p ++ t) p).1 (t, refl)

pub has_suffix-append : (s t : Bytes) → has_suffix (s ++ t) t ≡ true
unfolding has_suffix
has_suffix-append s t = ground (arith, length-append s t, cut)
  where
    cut : drop (length (s ++ t) - length t) (s ++ t) ≡ t
    cut =
        subst (λ n. drop n (s ++ t) ≡ t) (omega (arith, length-append s t)) (drop-append_length s t)

pub has_suffix-eq_append :
    (s t : Bytes) → has_suffix s t ≡ true → s ≡ take (length s - length t) s ++ t
unfolding has_suffix
has_suffix-eq_append s t h = sym (
    subst (λ q. take (length s - length t) s ++ q ≡ s) same
      (take-append-drop (length s - length t) s))
  where
    same : drop (length s - length t) s ≡ t
    same = ground arith

-- A byte that both texts begin with does not matter.
pub has_prefix-cons : (c : ℕ) (s p : Bytes) → has_prefix (c ∷ s) (c ∷ p) ≡ has_prefix s p
unfolding has_prefix
has_prefix-cons c s p =
    ground (arith, ==_iff (c ∷ take (length p) s) (c ∷ p), ==_iff (take (length p) s) p)

-- `strings.Split(s, sep)` where the separator is one byte
unfoldable pub split : ℕ → Bytes → List Bytes
split sep [] = [] ∷ []
split sep (c ∷ s) = elim (split sep s) [
  | [] ↦ []
  | part ∷ parts ↦ if eqb c sep then [] ∷ part ∷ parts else (c ∷ part) ∷ parts
]

split-cons :
    (sep : ℕ) (s : Bytes) → (part : Bytes) × (parts : List Bytes) × (split sep s ≡ part ∷ parts)
unfolding split
split-cons sep [] = ([], [], refl)
split-cons sep (c ∷ s) =
    let (part, parts, rest) = split-cons sep s in
    elim (Bool-cases (eqb c sep)) [
      | inl cut ↦ ([], part ∷ parts, ground (arith, rest))
      | inr goes_on ↦ (c ∷ part, parts, ground (arith, rest))
    ]

-- What has no separator is one part, and what stands before the first separator is the first.
pub split_plain : (sep : ℕ) (s : Bytes) → All (λ c. c ≢ sep) s → split sep s ≡ s ∷ []
unfolding split
split_plain sep [] h = refl
split_plain sep (c ∷ s) (differs, h) = ground (arith, split_plain sep s h)

pub split-append :
    (sep : ℕ) (s t : Bytes) → All (λ c. c ≢ sep) s → split sep (s ++ sep ∷ t) ≡ s ∷ split sep t
unfolding split
split-append sep [] t h = let (part, parts, rest) = split-cons sep t in ground (arith, rest)
split-append sep (c ∷ s) t (differs, h) = ground (arith, split-append sep s t h)
