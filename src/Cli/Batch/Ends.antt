-- ===== src/Cli/Batch/Ends.antt =====
-- The command as-batch ends: each transaction that is read takes something from the input.
use grafain.Prelude.{
  ℕ, zero, suc, ◌+◌, ◌-◌, ◌<◌, ◌≤◌, ◌≡◌, inl, inr, Bool, true, false, Option, none, some, List, [],
  ◌∷◌, ◌++◌, Bytes, length, arith, Bool-cases, Option-cases, leb, eqb, length-drop, if◌then◌else◌,
}
use grafain.Prelude.BigEndian.{uint32}
use grafain.Weave.{Result-cases, make_bytes, copy}
use grafain.App.Sums.{BatchSum}
use grafain.App.Tx.{get_msg}
use grafain.Cli.Stream.{at_eof, read, read_full, read_body, read_header, read_tx}
use grafain.Cli.Commands.{Tools, get_tx}
use grafain.Cli.Batch.{batch_sum, read_batch}

-- how often something can be read: the bytes, and one for each chunk
abbrev pub left : List Bytes → ℕ
left [] = 0
left (c ∷ cs) = suc (length c) + left cs

left-read :
    (r : List Bytes) {got : Bytes} {r' : List Bytes} → read 4 r ≡ some (got, r') → left r' < left r
unfolding read
left-read [] h = ground arith
left-read (c ∷ cs) h = elim (Bool-cases (leb (length c) 4)) [
  | inl whole ↦ ground arith
  | inr part ↦ ground (arith, length-drop 4 c)
]

left-read_full : (n : ℕ) (r : List Bytes) → left (read_full n r).1 ≤ left r
unfolding read_full
left-read_full n [] = ground arith
left-read_full n (c ∷ cs) = elim (Bool-cases (eqb n 0)) [
  | inl nothing ↦ ground arith
  | inr something ↦ elim (Bool-cases (leb (length c) n)) [
    | inl whole ↦ ground (arith, left-read_full (n - length c) cs)
    | inr part ↦ ground (arith, length-drop n c)
  ]
]

module _ {T : Type 0} (unmarshal : Bytes → Option T) where
  left-read_header :
      (r : List Bytes) {x : T × ℕ}
      → (read_header unmarshal r).0 ≡ some x
      → left (read_header unmarshal r).1 < left r
  unfolding read_header read_body
  left-read_header r h = elim (Option-cases (read 4 r)) [
    | inl nothing ↦ absurd (ground arith)
    | inr ((got, r'), first) ↦ elim (Option-cases (uint32 (copy (make_bytes 4) got))) [
      | inl short ↦ absurd (ground arith)
      | inr (size, header) ↦
          let less = left-read r first in let rest = left-read_full size r' in ground arith
    ]
  ]

  pub left-read_tx :
      (mode : Option Bool) (r : List Bytes) {x : T × ℕ}
      → (read_tx unmarshal mode r).0 ≡ some x
      → left (read_tx unmarshal mode r).1 < left r
  unfolding read_tx
  left-read_tx none r h = left-read_header r h
  left-read_tx (some true) r h = left-read_header r h
  left-read_tx (some false) r h = absurd (ground arith)

module _ {P S O : Type 0} (t : Tools P S O) (mode : Option Bool) where
  -- The loop of as-batch ends with a batch or an error: fuel above the bytes and chunks of the
  -- input is enough.
  pub read_batch-returns :
      (fuel : ℕ) (r : List Bytes) (batch : List (Option (BatchSum P)))
      → left r < fuel
      → (res : Option (List (Option (BatchSum P)))) × (read_batch t fuel mode r batch ≡ some res)
  unfolding read_batch get_tx
  read_batch-returns zero r batch enough = absurd (omega arith)
  read_batch-returns (suc fuel) r batch enough =
      elim (Option-cases (read_tx t.unmarshal mode r).0) [
        | inl stopped ↦ (if at_eof mode r then some batch else none, ground arith)
        | inr ((tx, n), got) ↦ elim (Result-cases (get_msg t.extract tx)) [
          | inr (e, bad) ↦ (none, ground arith)
          | inl (msg, good) ↦ elim (Option-cases (batch_sum msg)) [
            | inl unsupported ↦ (none, ground arith)
            | inr (s, found) ↦
                let less = left-read_tx t.unmarshal mode r got in
                let (res, e) =
                  read_batch-returns fuel (read_tx t.unmarshal mode r).1 (batch ++ (some s ∷ []))
                    (omega (arith, less)) in
                (res, ground (arith, e))
          ]
        ]
      ]
