-- ===== src/Lib.antt =====
-- Grafain, a Tendermint application on iov-one/weave that holds the container images a Kubernetes
-- cluster may run, with role based access control.
--
-- Parts. A transaction passes the decorators of pkg/rbac before its handler: AuthNDecorator looks up
-- the roles that the signers are bound to and puts them into the context, AuthZDecorator asks the
-- context for the permission of the message. The handlers of pkg/artifact create and delete
-- artifacts. The command line tool and the admission webhook ask a node through pkg/client; the
-- webhook admits the pods whose images the node has artifacts for. pkg/app puts the decorators in
-- front of the router, and has the transaction with its union of messages, the batches and the tasks
-- of the scheduler. The commands of the tool write and read such transactions, one behind the other in
-- a pipe.
--
-- Files.
--   Prelude    what all share: tests on numbers, lists over native numbers, bytes as lists of
--              numbers, the functions of Go's strings and encoding/binary that the code calls
--   Weave      the parameters: errors, conditions, addresses and buckets of weave, which is another
--              repository. Weave/Laws has what its documentation promises, Weave/Sample an
--              instance in memory that meets it
--   Rbac       pkg/rbac: Permission and Model (model.go, codec.pb.go), Context (context.go),
--              Bindings (bucket.go), Roles (loadRoles of decorator.go), Decorator (decorator.go),
--              Genesis (init.go); Genesis/Roles and Genesis/Binds have what a genesis file leaves
--   Artifact   pkg/artifact: Model (model.go, msg.go, bucket.go), Handler (handler.go, bucket.go),
--              Genesis (init.go)
--   App        pkg/app: Messages, Sums and Extract (codec.proto), Tx (tx.go, msg.go, gov_handler.go),
--              CronTask (crontask.go), Stack and Store (app.go)
--   Client     pkg/client: Query, Nonce, Broadcast and Node (base_client.go), Artifacts
--              (grafain_client.go); Nonce/Race has the goroutines that share a nonce
--              (in Nonce/Locked with each Lock and Unlock of the mutex),
--              Artifacts/Signing the sequences of SignTx
--   Webhook    pkg/webhook: validatingwebhook.go, and the address of server.go; Admission puts it
--              behind the handlers of pkg/artifact
--   Cli        cmd/grafaincli: Sequence (common.go, flag.go, cmd_sequence.go), Fraction (flag.go),
--              Stream (common.go), Keys and Query (cmd_query.go), Commands (what the commands
--              share), Batch (cmd_batch.go), Proposal and Governance (cmd_gov.go), Multisig
--              (cmd_multisig.go), Create (cmd_artifact.go, cmd_cash.go, cmd_escrow.go,
--              cmd_distribution.go, cmd_validators.go), Submit (cmd_submit.go), View (cmd_view.go),
--              Key (cmd_key.go, cmd_sigs.go), Flags (flag.go), Main (main.go, env.go);
--              Commands/Pipe, and Pipe of Multisig, Create and
--              Governance, have the commands that read what others have written
--   Board      cmd/grafainboard/main.go
--   Tests      runs at small inputs
-- A function has the name of the Go function in snake_case. A store is passed on explicitly
-- (`Exec`), an error is `err e`, and a nil error is `none`. In Cli the texts of errors are left out,
-- and an error is `none`. A command is a function of the values of its flags, of its input as a list
-- of the chunks that are waiting, and of the state of its output.
--
-- Bounds and fuel. `load_roles` has fuel for the depth of its recursion, `none` meaning that it ran
-- out; one more than the number of stored roles is enough. Gas costs are int64 as numbers below
-- 2 ^ 64 with the wrap-around written out. The regular expressions are matchers with the repetition
-- counts of the source. A uint64 prints with at most twenty digits, which is the fuel of
-- `print_uint`. The loops of as-batch and view have fuel for their iterations; each takes at least one
-- chunk or byte of the input, so their number plus one is enough.
--
-- A Go map of roles is the list of its entries, in the order of one iteration. That
-- withRBAC extends the map of the parent context in place does not show in the model, whose contexts
-- are values: the parent context is not used again by the decorators.
--
-- A pointer to a message that a command changes is the one in its transaction: the model returns the
-- transaction with the changed message. Goroutines that share a nonce are steps of one system, which
-- are taken in any order.
--
-- Not modelled: the generated protocol code, registration with weave's routers, and logging, which
-- have no logic of this repository; of pkg/app the routers, the cron stack and init.go, which hand
-- constructors of weave to each other; the usage texts of the commands; the HTTP server of
-- cmd/grafainboard, and cmd/grafaind, which are calls of weave, Tendermint and Kubernetes.
pub mod Prelude
pub mod Weave
pub mod Rbac
pub mod App
pub mod Artifact
pub mod Client
pub mod Webhook
pub mod Board
pub mod Cli
mod Tests
