-- ===== src/App/CronTask.antt =====
-- pkg/app/crontask.go: how the scheduler stores its tasks. The generated `Marshal` and `Unmarshal` of
-- `CronTask` are parameters.
pub mod Laws
use grafain.Prelude.{Option, none, some, List, Bytes}
use grafain.Weave.{Weave, Error, registered, err_type, Result, ok, err, failed}
use grafain.App.Messages.{ReleaseMsg}
use grafain.App.Sums.{
  Msg, escrow_release_msg, escrow_return_msg, distribution_msg, aswap_release_msg, gov_tally_msg,
  CronSum, cron_escrow_release_msg, cron_escrow_return_msg, cron_distribution_distribute_msg,
  cron_aswap_release_msg, cron_gov_tally_msg,
}
use grafain.App.Extract.{Extract}

-- `CronTask`
pub record CronTask (P : Type 0) : Type 0 where
  pub authenticators : List Bytes
  pub sum : Option (CronSum P)

module _ {P : Type 0} where
  -- the switch of `MarshalTask`; `none` is its default case
  unfoldable pub cron_sum : Msg P → Option (CronSum P)
  cron_sum (escrow_release_msg m) = some (cron_escrow_release_msg m)
  cron_sum (escrow_return_msg m) = some (cron_escrow_return_msg m)
  cron_sum (distribution_msg m) = some (cron_distribution_distribute_msg m)
  cron_sum (aswap_release_msg m) = some (cron_aswap_release_msg m)
  cron_sum (gov_tally_msg m) = some (cron_gov_tally_msg m)
  cron_sum _ = none

  -- `taskMarshaler.MarshalTask`
  unfoldable pub marshal_task :
      ⦃W : Weave⦄ → (CronTask P → Result Bytes) → List Bytes → Msg P → Result Bytes
  marshal_task ⦃W⦄ marshal auth msg = elim (cron_sum msg) [
    | none ↦ failed (W.wrap (some (registered err_type)) "unsupported message type: %T")
    | some s ↦ elim (marshal (record { authenticators = auth; sum = some s })) [
      | err e ↦ failed (W.wrap (some e) "cannot marshal")
      | ok raw ↦ ok raw
    ]
  ]

  -- `taskMarshaler.UnmarshalTask`
  unfoldable pub unmarshal_task :
      ⦃W : Weave⦄ → Extract P → (Bytes → Result (CronTask P)) → Bytes → Result (List Bytes × Msg P)
  unmarshal_task ⦃W⦄ X unmarshal raw = elim (unmarshal raw) [
    | err e ↦ failed (W.wrap (some e) "cannot unmarshal")
    | ok t ↦ elim (X.cron_sum t.sum) [
      | err e ↦ failed (W.wrap (some e) "cannot extract message")
      | ok msg ↦ ok (t.authenticators, msg)
    ]
  ]
