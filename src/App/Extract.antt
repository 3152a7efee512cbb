-- ===== src/App/Extract.antt =====
-- What weave does with the sums of the messages of pkg/app/codec.proto.
use grafain.Prelude.{◌≡◌, Option, none, some}
use grafain.Weave.{Error, Result, ok, err}
use grafain.App.Sums.{
  BatchSum, ProposalBatchSum, TxSum, ProposalOption, CronSum, Msg, tx_msg, batch_msg,
  proposal_batch_msg, option_msg, cron_msg,
}

-- `weave.ExtractMsgFromSum`, at the sums of the source
pub record Extract (P : Type 0) : Type 0 where
  pub tx_sum : Option (TxSum P) → Result (Msg P)
  pub batch_sum : Option (BatchSum P) → Result (Msg P)
  pub proposal_batch_sum : Option (ProposalBatchSum P) → Result (Msg P)
  pub option_sum : Option (ProposalOption P) → Result (Msg P)
  pub cron_sum : Option (CronSum P) → Result (Msg P)

-- What its documentation says: it finds the message in the sum, and fails if there is none.
pub record IsExtract {P : Type 0} (X : Extract P) : Type 0 where
  pub tx_sum-some : (s : TxSum P) → X.tx_sum (some s) ≡ ok (tx_msg s)
  pub batch_sum-some : (s : BatchSum P) → X.batch_sum (some s) ≡ ok (batch_msg s)
  pub proposal_batch_sum-some :
      (s : ProposalBatchSum P) → X.proposal_batch_sum (some s) ≡ ok (proposal_batch_msg s)
  pub option_sum-some : (s : ProposalOption P) → X.option_sum (some s) ≡ ok (option_msg s)
  pub cron_sum-some : (s : CronSum P) → X.cron_sum (some s) ≡ ok (cron_msg s)
  pub batch_sum-none : (e : Error) × (X.batch_sum none ≡ err e)
  pub cron_sum-none : (e : Error) × (X.cron_sum none ≡ err e)
