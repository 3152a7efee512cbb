-- ===== src/App/CronTask/Laws.antt =====
-- A stored task is read back as it was.
use grafain.Prelude.{◌≡◌, refl, ◌⊎◌, inl, inr, none, some, List, Bytes, arith}
use grafain.Weave.{Weave, registered, err_type, Result, ok, failed-ok, Result-cases}
use grafain.App.Sums.{
  Msg, CronSum, cron_msg, cron_escrow_release_msg, cron_escrow_return_msg,
  cron_distribution_distribute_msg, cron_aswap_release_msg, cron_gov_tally_msg, escrow_release_msg,
  escrow_return_msg, distribution_msg, aswap_release_msg, gov_tally_msg,
}
use grafain.App.Extract.{Extract, IsExtract}
use grafain.App.CronTask.{CronTask, cron_sum, marshal_task, unmarshal_task}

module _ {P : Type 0} where
  cron_sum-cases :
      (msg : Msg P)
      → ((s : CronSum P) × (msg ≡ cron_msg s) × (cron_sum msg ≡ some s)) ⊎ (cron_sum msg ≡ none)
  unfolding cron_sum cron_msg
  cron_sum-cases (escrow_release_msg m) = inl (cron_escrow_release_msg m, refl, refl)
  cron_sum-cases (escrow_return_msg m) = inl (cron_escrow_return_msg m, refl, refl)
  cron_sum-cases (distribution_msg m) = inl (cron_distribution_distribute_msg m, refl, refl)
  cron_sum-cases (aswap_release_msg m) = inl (cron_aswap_release_msg m, refl, refl)
  cron_sum-cases (gov_tally_msg m) = inl (cron_gov_tally_msg m, refl, refl)
  cron_sum-cases _ = inr refl

module _ ⦃W : Weave⦄ {P : Type 0} (X : Extract P) (lawful : IsExtract X)
    (marshal : CronTask P → Result Bytes) (unmarshal : Bytes → Result (CronTask P))
    (back : (t : CronTask P) (raw : Bytes) → marshal t ≡ ok raw → unmarshal raw ≡ ok t) where
  -- A task that MarshalTask stores is read by UnmarshalTask with the conditions and the message
  -- that it was made of, which is one of the five messages of a task.
  pub unmarshal_task-marshal_task :
      (auth : List Bytes) (msg : Msg P) {raw : Bytes}
      → marshal_task marshal auth msg ≡ ok raw
      → (unmarshal_task X unmarshal raw ≡ ok (auth, msg)) × ((s : CronSum P) × (msg ≡ cron_msg s))
  unfolding marshal_task unmarshal_task
  unmarshal_task-marshal_task auth msg {raw} h = elim (cron_sum-cases msg) [
    | inr unsupported ↦ absurd (
        failed-ok (W.wrap (some (registered err_type)) "unsupported message type: %T") {a = raw}
          (ground arith))
    | inl (s, same, stored) ↦
        let task : CronTask P = record { authenticators = auth; sum = some s } in
        elim (Result-cases (marshal task)) [
          | inr (e, bad) ↦
              absurd (failed-ok (W.wrap (some e) "cannot marshal") {a = raw} (ground arith))
          | inl (b, good) ↦
              let read = back task b good in
              (ground (arith, read, lawful.cron_sum-some s), (s, same))
        ]
  ]
