-- ===== src/Prelude/BigEndian.antt =====
-- `binary.BigEndian` of Go: eight and four bytes, the most significant first.
use Prim.Native.Nat.{ℕ, ◌+◌, ◌*◌, ◌/◌, ◌%◌, ◌^◌, ◌<◌}
use mathlib.Core.Path.{◌≡◌, refl}
use mathlib.Core.List.{[], ◌∷◌}
use mathlib.Core.Option.{Option, none, some}
use native.Mathlib.Omega.{arith}
use grafain.Prelude.Lists.{length}
use grafain.Prelude.Text.{Bytes}

-- `PutUint64`
unfoldable pub put_uint64 : ℕ → Bytes
put_uint64 n =
    (n / 2 ^ 56 % 256)
    ∷ (n / 2 ^ 48 % 256)
    ∷ (n / 2 ^ 40 % 256)
    ∷ (n / 2 ^ 32 % 256)
    ∷ (n / 2 ^ 24 % 256)
    ∷ (n / 2 ^ 16 % 256)
    ∷ (n / 2 ^ 8 % 256)
    ∷ (n % 256)
    ∷ []

-- `Uint64`; fewer than eight bytes are a panic, more are not read
unfoldable pub uint64 : Bytes → Option ℕ
uint64 (a ∷ b ∷ c ∷ d ∷ e ∷ f ∷ g ∷ h ∷ _) =
    some
      (a * 2 ^ 56 + b * 2 ^ 48 + c * 2 ^ 40 + d * 2 ^ 32 + e * 2 ^ 24 + f * 2 ^ 16 + g * 2 ^ 8 + h)
uint64 _ = none

-- `PutUint32`
unfoldable pub put_uint32 : ℕ → Bytes
put_uint32 n = (n / 2 ^ 24 % 256) ∷ (n / 2 ^ 16 % 256) ∷ (n / 2 ^ 8 % 256) ∷ (n % 256) ∷ []

-- `Uint32`
unfoldable pub uint32 : Bytes → Option ℕ
uint32 (a ∷ b ∷ c ∷ d ∷ _) = some (a * 2 ^ 24 + b * 2 ^ 16 + c * 2 ^ 8 + d)
uint32 _ = none

pub length-put_uint64 : (n : ℕ) → length (put_uint64 n) ≡ 8
unfolding put_uint64
length-put_uint64 n = refl

pub length-put_uint32 : (n : ℕ) → length (put_uint32 n) ≡ 4
unfolding put_uint32
length-put_uint32 n = refl

word64 :
    (n : ℕ)
    → n < 2 ^ 64
    → (n / 2 ^ 56 % 256) * 2 ^ 56
        + (n / 2 ^ 48 % 256) * 2 ^ 48
        + (n / 2 ^ 40 % 256) * 2 ^ 40
        + (n / 2 ^ 32 % 256) * 2 ^ 32
        + (n / 2 ^ 24 % 256) * 2 ^ 24
        + (n / 2 ^ 16 % 256) * 2 ^ 16
        + (n / 2 ^ 8 % 256) * 2 ^ 8
        + n % 256
      ≡ n
word64 n h = omega arith

pub uint64-put_uint64 : (n : ℕ) → n < 2 ^ 64 → uint64 (put_uint64 n) ≡ some n
unfolding put_uint64 uint64
uint64-put_uint64 n h = ground (arith, word64 n h)

pub uint32-put_uint32 : (n : ℕ) → n < 2 ^ 32 → uint32 (put_uint32 n) ≡ some n
unfolding put_uint32 uint32
uint32-put_uint32 n h = ground arith
