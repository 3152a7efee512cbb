-- ===== src/Cli/Flags.antt =====
-- The other flags of cmd/grafaincli/flag.go. The parsers of weave and of `time` are parameters; a flag
-- is its value, and an invalid default ends the process (`none`).
use grafain.Prelude.{Bool, true, false, Option, none, some, [], Bytes, length, eqb, if◌then◌else◌}
use grafain.Prelude.Hex.{hex_encode, hex_decode}
use grafain.Cli.Fraction.{Fraction, unpack_fraction}
use grafain.Cli.Sequence.{unpack_sequence}

-- a default that is parsed if it is not empty
unfoldable pub default_value : {A : Type 0} → (Bytes → Option A) → A → Bytes → Option A
default_value parse zero_value default =
    if eqb (length default) 0 then some zero_value else parse default

-- `flAddress`, with `weave.ParseAddress`
unfoldable pub fl_address : (Bytes → Option Bytes) → Bytes → Option Bytes
fl_address parse_address default = default_value parse_address [] default

-- `flCoin`, with `coin.ParseHumanFormat` and the zero coin
unfoldable pub fl_coin : {P : Type 0} → (Bytes → Option P) → P → Bytes → Option P
fl_coin parse_human_format zero_coin default = default_value parse_human_format zero_coin default

-- `flHex`
unfoldable pub fl_hex : Bytes → Option Bytes
fl_hex default = default_value hex_decode [] default

-- `flSeq`
unfoldable pub fl_seq : Bytes → Option Bytes
fl_seq default = default_value unpack_sequence [] default

-- `flFraction`
unfoldable pub fl_fraction : Bytes → Option (Option Fraction)
fl_fraction default =
    default_value (λ s. elim (unpack_fraction s) [ none ↦ none | some f ↦ some (some f) ]) none
      default

-- `flTime`; `zero_time` is the zero of `time.Time`
unfoldable pub fl_time : {T : Type 0} → T → Option T → T
fl_time zero_time none = zero_time
fl_time zero_time (some t) = t

-- `flagTime.String` and `flagTime.Set`, with `Format` and `time.Parse` at the layout of the flag
unfoldable pub time_string : {T : Type 0} → (T → Bytes) → T → Bytes
time_string format t = format t

unfoldable pub time_set : {T : Type 0} → (Bytes → Option T) → T → Bytes → Bool × T
time_set parse t raw = elim (parse raw) [ none ↦ (false, t) | some val ↦ (true, val) ]

-- `flagbytes.String`
unfoldable pub flagbytes_string : Bytes → Bytes
flagbytes_string b = hex_encode b

-- `flagbytes.Set`: whether it went well, and the value
unfoldable pub flagbytes_set : Bytes → Bytes → Bool × Bytes
flagbytes_set b raw = elim (hex_decode raw) [ none ↦ (false, b) | some val ↦ (true, val) ]
