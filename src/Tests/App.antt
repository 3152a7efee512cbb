-- ===== src/Tests/App.antt =====
-- pkg/app: what is signed, and the scheduler's tasks.
use grafain.Prelude.{
  ℕ, ◌+◌, length, ◌≡◌, refl, sym, ap, none, some, Option, List, [], ◌∷◌, ◌++◌, Bytes, codes, arith,
}
use grafain.Weave.{other, Result, ok, err}
use grafain.Weave.Sample.{sample_weave}
use grafain.App.Sums.{gov_tally_msg, CronSum, cron_msg, cron_gov_tally_msg, tx_escrow_return_msg}
use grafain.App.Tx.{Tx, new_tx, get_sign_bytes}
use grafain.Client.Artifacts.{sign_tx}
use grafain.Client.Artifacts.Signing.{SignsBytes, sign_all, SignedBy, sign_all-SignedBy}
use grafain.App.CronTask.{CronTask, cron_sum, marshal_task, unmarshal_task}
use grafain.App.CronTask.Laws.{unmarshal_task-marshal_task}
use grafain.Tests.Messages.{sample_extract, sample_extract-IsExtract}

abbrev signed_tx : Tx ℕ ℕ
signed_tx = record (new_tx (tx_escrow_return_msg 7)) { signatures = 1 ∷ [] }

abbrev marshal_tx : Tx ℕ ℕ → Result Bytes
marshal_tx tx = ok tx.signatures

-- a signature of the number of contracts and the nonce, with the number of a key
abbrev sign_with : ℕ → Tx ℕ ℕ → Bytes → ℕ → Result ℕ
sign_with k tx chain_id n = elim (get_sign_bytes marshal_tx tx).0 [
  | err e ↦ err e
  | ok bytes ↦ ok (k + (length bytes + n))
]

sign_with-SignsBytes : SignsBytes marshal_tx sign_with (codes "chain")
sign_with-SignsBytes k tx tx' n e =
    ap (λ (bytes : Result Bytes). elim bytes [ err x ↦ err x | ok b ↦ ok (k + (length b + n)) ]) e

abbrev twice_signed : Tx ℕ ℕ
twice_signed = record signed_tx { signatures = 1 ∷ 15 ∷ 25 ∷ [] }

signed_twice :
    sign_all marshal_tx sign_with (codes "chain") ((10, 5) ∷ (20, 5) ∷ []) signed_tx
    ≡ (none, twice_signed)
unfolding sign_tx get_sign_bytes
signed_twice = refl

sign_all-SignedBy_example :
    (sigs : List ℕ) × (twice_signed
      ≡ record signed_tx { signatures = signed_tx.signatures ++ sigs })
    × SignedBy marshal_tx sign_with (codes "chain") twice_signed ((10, 5) ∷ (20, 5) ∷ []) sigs
sign_all-SignedBy_example =
    sign_all-SignedBy marshal_tx sign_with (codes "chain") sign_with-SignsBytes
      ((10, 5) ∷ (20, 5) ∷ []) signed_tx twice_signed signed_twice

-- Tasks to tally a proposal can be encoded.
abbrev encode_sum : Bytes → Option (CronSum ℕ) → Result Bytes
encode_sum auth (some (cron_gov_tally_msg n)) = ok (n ∷ auth)
encode_sum auth _ = err (other 0)

abbrev encode_task : CronTask ℕ → Result Bytes
encode_task t = elim t.authenticators [
  | [] ↦ err (other 0)
  | a ∷ rest ↦ elim rest [ [] ↦ encode_sum a t.sum | _ ∷ _ ↦ err (other 0) ]
]

abbrev decode_task : Bytes → Result (CronTask ℕ)
decode_task [] = err (other 0)
decode_task (n ∷ auth) =
    ok (record { authenticators = auth ∷ []; sum = some (cron_gov_tally_msg n) })

decode_encode_sum :
    (a : Bytes) (s : Option (CronSum ℕ)) (raw : Bytes)
    → encode_sum a s ≡ ok raw
    → decode_task raw ≡ ok (record { authenticators = a ∷ []; sum = s })
decode_encode_sum a (some (cron_gov_tally_msg n)) raw h =
    let same : n ∷ a ≡ raw = ground (arith, h) in ap decode_task (sym same)
decode_encode_sum a _ raw h = absurd (ground arith)

decode_encode_task :
    (t : CronTask ℕ) (raw : Bytes) → encode_task t ≡ ok raw → decode_task raw ≡ ok t
decode_encode_task t raw h = go t.authenticators t.sum h
  where
    go :
        (auths : List Bytes) (s : Option (CronSum ℕ))
        → encode_task (record { authenticators = auths; sum = s }) ≡ ok raw
        → decode_task raw ≡ ok (record { authenticators = auths; sum = s })
    go [] s h = absurd (ground arith)
    go (a ∷ []) s h = decode_encode_sum a s raw h
    go (a ∷ b ∷ rest) s h = absurd (ground arith)

tally_task : marshal_task encode_task (codes "gov" ∷ []) (gov_tally_msg 3) ≡ ok (3 ∷ codes "gov")
unfolding marshal_task cron_sum
tally_task = refl

unmarshal_task-marshal_task_example :
    (unmarshal_task sample_extract decode_task (3 ∷ codes "gov")
      ≡ ok (codes "gov" ∷ [], gov_tally_msg 3))
    × ((s : CronSum ℕ) × (gov_tally_msg 3 ≡ cron_msg s))
unmarshal_task-marshal_task_example =
    unmarshal_task-marshal_task sample_extract sample_extract-IsExtract encode_task decode_task
      decode_encode_task (codes "gov" ∷ []) (gov_tally_msg 3) tally_task
