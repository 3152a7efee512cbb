-- ===== src/Cli/Stream.antt =====
-- The stream of transactions between commands, in cmd/grafaincli/common.go. A reader is the list of
-- the chunks that are waiting on it; one `Read` gives at most one chunk. `marshal` and `unmarshal`
-- are those of the generated `Tx`.
pub mod Laws
use grafain.Prelude.{
  ℕ, ◌+◌, ◌-◌, ◌%◌, ◌^◌, Bool, true, false, Option, none, some, List, [], ◌∷◌, ◌++◌, Bytes, length,
  take, drop, replicate, eqb, leb, not, ◌&&◌, if◌then◌else◌,
}
use grafain.Prelude.BigEndian.{put_uint32, uint32}
use grafain.Weave.{make_bytes, copy}

abbrev pub tx_header_size : ℕ
tx_header_size = 4

-- `Read` into a buffer of a given length: the bytes, and what is left; `none` at the end
unfoldable pub read : ℕ → List Bytes → Option (Bytes × List Bytes)
read n [] = none
read n (c ∷ cs) = some (take n c, if leb (length c) n then cs else drop n c ∷ cs)

-- `io.ReadFull`
unfoldable pub read_full : ℕ → List Bytes → Option Bytes × List Bytes
read_full n [] = (if eqb n 0 then some [] else none, [])
read_full n (c ∷ cs) =
    let (rest, left) = read_full (n - length c) cs in
    if eqb n 0
    then (some [], c ∷ cs)
    else if leb (length c) n
    then (elim rest [ none ↦ none | some s ↦ some (c ++ s) ], left)
    else (some (take n c), drop n c ∷ cs)

-- `ioutil.ReadAll`
unfoldable pub read_all : List Bytes → Bytes
read_all [] = []
read_all (c ∷ cs) = c ++ read_all cs

-- `readInput`; the mode is what `Stat` says: whether the input is piped, if it can be asked
unfoldable pub read_input : Option Bool → List Bytes → Option Bytes
read_input (some false) input = none
read_input (some true) input = some (read_all input)
read_input none input = some (read_all input)

module _ {T : Type 0} where
  module _ {S : Type 0} (write : Bytes → S → (ℕ × Bool) × S) (marshal : T → Option Bytes) where
    -- `writeTx`: how many bytes were written, and whether all went well. A `Write` says the same.
    unfoldable pub write_tx : T → S → (ℕ × Bool) × S
    write_tx tx w = elim (marshal tx) [
      | none ↦ ((0, false), w)
      | some b ↦
          let ((n, fine), w') = write (put_uint32 (length b % 2 ^ 32)) w in
          let ((m, fine'), w'') = write b w' in
          if fine
          then (if fine'
              then ((tx_header_size + length b, true), w'')
              else ((m + tx_header_size, false), w''))
          else ((n, false), w')
    ]

  module _ (unmarshal : Bytes → Option T) where
    -- behind the header: `readTx` from the size on, which is added to in uint32
    unfoldable pub read_body : ℕ → List Bytes → Option (T × ℕ) × List Bytes
    read_body size r =
        let (raw, r') = read_full size r in
        (
          elim raw [
            | none ↦ none
            | some b ↦ elim (unmarshal b) [
              | none ↦ none
              | some tx ↦ some (tx, (size + tx_header_size) % 2 ^ 32)
            ]
          ],
          r',
        )

    unfoldable pub read_header : List Bytes → Option (T × ℕ) × List Bytes
    read_header r = elim (read tx_header_size r) [
      | none ↦ (none, r)
      | some (got, r') ↦ elim (uint32 (copy (make_bytes tx_header_size) got)) [
        | none ↦ (none, r')
        | some size ↦ read_body size r'
      ]
    ]

    -- `readTx`: one `Read` for the header, whose missing bytes stay zero
    unfoldable pub read_tx : Option Bool → List Bytes → Option (T × ℕ) × List Bytes
    read_tx (some false) r = (none, r)
    read_tx (some true) r = read_header r
    read_tx none r = read_header r

-- what the header says, behind which nothing has to follow
unfoldable pub header_eof : List Bytes → Bool
header_eof r = elim (read tx_header_size r) [
  | none ↦ true
  | some (got, r') ↦ elim (uint32 (copy (make_bytes tx_header_size) got)) [
    | none ↦ false
    | some size ↦ not (eqb size 0) && eqb (length (read_all r')) 0
  ]
]

-- Whether the error of `readTx` is io.EOF, where it has one: that of `Stat`, of the `Read` of the
-- header at the end of the input, or of `io.ReadFull` if nothing at all follows the header.
unfoldable pub at_eof : Option Bool → List Bytes → Bool
at_eof (some false) r = true
at_eof (some true) r = header_eof r
at_eof none r = header_eof r
