-- ===== src/Prelude/Hex.antt =====
-- `encoding/hex` and `encoding/base64` of Go.
use Prim.Native.Nat.{ℕ, ◌+◌, ◌-◌, ◌*◌, ◌/◌, ◌%◌, ◌<◌}
use mathlib.Core.Path.{◌≡◌, refl}
use mathlib.Core.Bool.{◌&&◌, ◌||◌}
use mathlib.Core.List.{[], ◌∷◌}
use mathlib.Core.Option.{Option, none, some}
use native.Mathlib.Omega.{arith}
use grafain.Prelude.Tests.{leb, ltb, eqb, if◌then◌else◌}
use grafain.Prelude.Lists.{All}
use grafain.Prelude.Text.{Bytes}

infixl 5 ◌>>=◌
abbrev ◌>>=◌ : {A B : Type 0} → Option A → (A → Option B) → Option B
none >>= f = none
some a >>= f = f a

unfoldable pub hex_digit : ℕ → ℕ
hex_digit n = if ltb n 10 then b'0' + n else b'a' + (n - 10)

unfoldable pub hex_value : ℕ → Option ℕ
hex_value c =
    if leb b'0' c && leb c b'9'
    then some (c - b'0')
    else if leb b'a' c && leb c b'f'
    then some (c - b'a' + 10)
    else if leb b'A' c && leb c b'F'
    then some (c - b'A' + 10)
    else none

-- `hex.EncodeToString`
unfoldable pub hex_encode : Bytes → Bytes
hex_encode [] = []
hex_encode (b ∷ s) = hex_digit (b / 16) ∷ hex_digit (b % 16) ∷ hex_encode s

-- `hex.DecodeString`; an odd length and any other letter are errors
unfoldable pub hex_decode : Bytes → Option Bytes
hex_decode [] = some []
hex_decode (h ∷ []) = none
hex_decode (h ∷ l ∷ s) = do
  high ← hex_value h
  low ← hex_value l
  rest ← hex_decode s
  some ((high * 16 + low) ∷ rest)

-- the value of a letter of base64
unfoldable pub base64_value : ℕ → Option ℕ
base64_value c =
    if leb b'A' c && leb c b'Z'
    then some (c - b'A')
    else if leb b'a' c && leb c b'z'
    then some (c - b'a' + 26)
    else if leb b'0' c && leb c b'9'
    then some (c - b'0' + 52)
    else if eqb c b'+'
    then some 62
    else if eqb c b'/'
    then some 63
    else none

-- line ends are skipped
unfoldable pub skip_newlines : Bytes → Bytes
skip_newlines [] = []
skip_newlines (c ∷ s) =
    let rest = skip_newlines s in if eqb c 10 || eqb c 13 then rest else c ∷ rest

-- groups of four letters; the last may end in one or two `=`, and the bits that are over are dropped
unfoldable pub base64_groups : Bytes → Option Bytes
base64_groups [] = some []
base64_groups (a ∷ b ∷ c ∷ d ∷ []) =
    if eqb d b'='
    then if eqb c b'='
      then (do x ← base64_value a; y ← base64_value b; some ((x * 4 + y / 16) ∷ []))
      else (do
        x ← base64_value a
        y ← base64_value b
        z ← base64_value c
        some ((x * 4 + y / 16) ∷ (y % 16 * 16 + z / 4) ∷ []))
    else (do
      x ← base64_value a
      y ← base64_value b
      z ← base64_value c
      w ← base64_value d
      some ((x * 4 + y / 16) ∷ (y % 16 * 16 + z / 4) ∷ (z % 4 * 64 + w) ∷ []))
base64_groups (a ∷ b ∷ c ∷ d ∷ e ∷ s) = do
  x ← base64_value a
  y ← base64_value b
  z ← base64_value c
  w ← base64_value d
  rest ← base64_groups (e ∷ s)
  some ((x * 4 + y / 16) ∷ (y % 16 * 16 + z / 4) ∷ (z % 4 * 64 + w) ∷ rest)
base64_groups _ = none

-- `base64.StdEncoding.DecodeString`
unfoldable pub base64_decode : Bytes → Option Bytes
base64_decode s = base64_groups (skip_newlines s)

hex_value-hex_digit : (n : ℕ) → n < 16 → hex_value (hex_digit n) ≡ some n
unfolding hex_value hex_digit
hex_value-hex_digit n h = ground arith

pub hex_decode-hex_encode : (s : Bytes) → All (λ b. b < 256) s → hex_decode (hex_encode s) ≡ some s
unfolding hex_decode hex_encode
hex_decode-hex_encode [] h = refl
hex_decode-hex_encode (b ∷ s) (small, h) =
    let whole : b / 16 * 16 + b % 16 ≡ b = omega arith in
    rw
      (
        hex_value-hex_digit (b / 16) (omega arith),
        hex_value-hex_digit (b % 16) (omega arith),
        hex_decode-hex_encode s h,
        whole,
      )
      refl
