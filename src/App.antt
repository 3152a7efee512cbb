-- ===== src/App.antt =====
-- pkg/app: the transaction and its messages, the batches, the tasks of the scheduler, and the stack of
-- decorators in front of the handlers.
pub mod Messages
pub mod Sums
pub mod Extract
pub mod Tx
pub mod CronTask
pub mod Stack
pub mod Store
