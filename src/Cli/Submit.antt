-- ===== src/Cli/Submit.antt =====
-- cmd/grafaincli/cmd_submit.go: a transaction is sent to the node, and what the node answers printed.
-- Of an error only its presence is kept: `other 0` is one of `fmt.Errorf`.
pub mod Laws
use grafain.Prelude.{
  ℕ, Bool, Option, none, some, List, [], ◌∷◌, ◌++◌, Bytes, ◌==◌, drop, if◌then◌else◌,
}
use grafain.Prelude.Decimal.{print_uint}
use grafain.Weave.{Error, other, panic, Result, ok, err}
use grafain.App.Sums.{Msg, execute_batch_msg, execute_proposal_batch_msg}
use grafain.App.Extract.{Extract}
use grafain.App.Tx.{Tx, get_msg, msg_list, proposal_msg_list}
use grafain.Client.{PkgErrors}
use grafain.Client.Broadcast.{TxCommit, Node, broadcast_tx, is_error}
use grafain.Cli.Sequence.{from_sequence}
use grafain.Cli.Commands.{Outcome, done, returned_error, Tools, get_tx}

-- `fmtSequence`
unfoldable pub fmt_sequence : Bytes → Result Bytes
fmt_sequence raw = elim (from_sequence raw) [ none ↦ err (other 0) | some n ↦ ok (print_uint n) ]

-- The paths of weave's messages with a response to print.
pub record Paths : Type 0 where
  pub aswap_create : Bytes
  pub distribution_create : Bytes
  pub escrow_create : Bytes
  pub gov_create_proposal : Bytes
  pub gov_create_text_resolution : Bytes
  pub paychan_create : Bytes

abbrev pub Formatters : Type 0
Formatters = List (Bytes × (Bytes → Result Bytes))

-- `formatters`
unfoldable pub formatters : Paths → Formatters
formatters p =
    (p.aswap_create, fmt_sequence)
    ∷ (p.distribution_create, fmt_sequence)
    ∷ (p.escrow_create, fmt_sequence)
    ∷ (p.gov_create_proposal, fmt_sequence)
    ∷ (p.gov_create_text_resolution, fmt_sequence)
    ∷ (p.paychan_create, fmt_sequence)
    ∷ []

-- `fmts[msg.Path()]`
unfoldable pub formatter : Bytes → Formatters → Option (Bytes → Result Bytes)
formatter path [] = none
formatter path ((p, format) ∷ rest) =
    let found = formatter path rest in if p == path then some format else found

-- `responsesData[i]`, of what is left of the list
unfoldable pub response_at : List Bytes → Result Bytes
response_at [] = err panic
response_at (d ∷ ds) = ok d

-- What a response is, of which the code is in weave: the path of a message, and `batch.ByteArrayList`.
pub record Responses (P : Type 0) : Type 0 where
  pub path : Msg P → Bytes
  pub byte_array_list : Bytes → Option (List Bytes)

module _ {P : Type 0} (R : Responses P) (fmts : Formatters) where
  -- the loop of `extractResponse` over the messages; the list of responses moves with it
  unfoldable pub format_responses : List (Msg P) → List Bytes → Result (List Bytes)
  format_responses [] responses_data = ok []
  format_responses (m ∷ ms) responses_data =
      let rest = format_responses ms (drop 1 responses_data) in
      elim (formatter (R.path m) fmts) [
        | none ↦ rest
        | some format ↦ elim (response_at responses_data) [
          | err e ↦ err e
          | ok d ↦ elim (format d) [
            | err e ↦ err e
            | ok pretty ↦ elim rest [ err e ↦ err e | ok responses ↦ ok (pretty ∷ responses) ]
          ]
        ]
      ]

  -- the messages of a `batch.Msg` with their responses
  unfoldable pub batch_responses : Result (List (Msg P)) → Bytes → Result (List Bytes)
  batch_responses (err e) resp_data = err (other 0)
  batch_responses (ok msgs) resp_data = elim (R.byte_array_list resp_data) [
    | none ↦ err (other 0)
    | some arr ↦ format_responses msgs arr
  ]

  -- `extractResponse`
  unfoldable pub extract_response : {S : Type 0} → Extract P → Tx P S → Bytes → Result (List Bytes)
  extract_response X tx resp_data = elim (get_msg X tx) [
    | err e ↦ err (other 0)
    | ok msg ↦ elim msg [
      | execute_batch_msg b ↦ batch_responses (msg_list X b) resp_data
      | execute_proposal_batch_msg b ↦ batch_responses (proposal_msg_list X b) resp_data
      | single ↦ format_responses (single ∷ []) (resp_data ∷ [])
    ]
  ]

-- `fmt.Fprintln(output, r)` for each response
unfoldable pub print_lines : {O : Type 0} → (Bytes → O → (ℕ × Bool) × O) → List Bytes → O → O
print_lines write [] w = w
print_lines write (r ∷ rs) w = print_lines write rs (write (r ++ (10 ∷ [])) w).1

-- `cmdSubmitTransaction`; `deliver_data` is `DeliverTx.Data` of a response. A panic ends the process
-- with a status of its own, which counts as an error here.
unfoldable pub cmd_submit_transaction :
    ⦃E : PkgErrors⦄ {P S O : Type 0}
    → Tools P S O
    → Node (Tx P S)
    → (TxCommit → Bytes)
    → Responses P
    → Paths
    → Option Bool
    → List Bytes
    → O
    → Outcome × O
cmd_submit_transaction t node deliver_data R paths mode r w = elim (get_tx t mode r).0 [
  | none ↦ (returned_error, w)
  | some (tx, n) ↦
      let resp = broadcast_tx node tx in
      elim (is_error resp) [
        | some e ↦ (returned_error, w)
        | none ↦ elim resp.response [
          | none ↦ (returned_error, w)
          | some c ↦ elim (extract_response R (formatters paths) t.extract tx (deliver_data c)) [
            | err e ↦ (returned_error, w)
            | ok responses ↦ (done, print_lines t.write responses w)
          ]
        ]
      ]
]
