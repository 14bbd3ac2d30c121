-- ===== src/Lib.antt =====
-- Verification of the betting processing service, whose Go code is under internal/.
--
-- The service takes wager transactions (bets, wins, losses, refunds, rollbacks) from game providers
-- and moves the balances of player wallets. Each file models one part of it:
--
-- - Prelude and its children: shared names, signed integers over the native numbers, Go's int64 and
--   uint64 with their wrap-around, and texts. A Go string that the code walks is a list of code
--   points (valid UTF-8 is assumed; `byte_len` counts its bytes), and one that is only compared,
--   joined or trimmed is a native text.
-- - Errors and ErrorTexts: the error variables of the packages, Go's wrapping of errors and messages.
-- - Money: internal/money. `Money.Defs` has NewMoney, Add, Subtract, Negate, Compare; `Money.Parse`
--   has ParseMoney, cut at the split of its input; `Money.Print` has String and the JSON codec up to
--   encoding/json. The printer runs on fuel, as many rounds as the number.
-- - Wallet: internal/wallet/wallet.go (`Wallet.Defs`) and ledger_entry.go (`Wallet.Entry`). A method
--   returns the changed wallet; its lock makes it one step. The clock is an argument.
-- - Wager: internal/wagertransaction/transaction.go (`Wager.Defs`), and the checks on references and
--   the mapping of errors in service.go and errors.go (`Wager.Reference`).
-- - Store: internal/infra/db, internal/domain/events.go and migrations. `Store.Schema` has the rows,
--   `Store.Rows` the constraints and the SQL statements as functions of the tables, `Store.Session` the
--   calls inside and outside of a database transaction, and `Store.WalletRepo`,
--   `Store.TransactionRepo` and `Store.OutboxRepo` the repositories. `Store.TransactionRows` has the rows of
--   wager_transactions with their constraints and unique indexes. What PostgreSQL decides by itself is
--   an argument, for each call: whether it fails, before it has an effect or after, the id that it gives,
--   the time, and how many rows arrive before a connection breaks. `Store.During` and `Store.Throughout` have the rules for actions, `Store.Reconciled`
--   says when the books balance, `Store.Invariant` what the keys and the columns keep, and `Store.Frame`
--   joins the two.
--   `Store.LedgerRows` and `Store.LedgerRepo` have the ledger's pages, whose texts of times and cast to
--   UUIDs are arguments (`Reader`), and `Store.Runs` the equations of actions that succeed.
--   `Store.WalletPool` has the methods of the wallet repository that commit by themselves, and `Locking`,
--   `Succeeded`, `Writers` and `LostUpdate` the proofs on the versions of wallets.
-- - WalletService: internal/wallet/service.go. It calls Store for every statement and Wallet for every
--   change of a balance. `Ledger` has GetLedger and Reconcile, whose loop runs on fuel, one for each
--   page, and two are enough, and `Compare` the end of Reconcile; `Pages`, `Reconciling`, `Audit` and
--   `Balanced` have the proofs.
-- - WagerService: internal/wagertransaction/service.go. `Process` has ProcessTransaction, handleReplay
--   and the payload hash, `Kinds` the five kinds, `Steps` commitWithLedger and the rejections,
--   `Resolve` ResolvePendingReference, `Events` the events, and `Run` calls of the services one after the
--   other. `Sound`, `Books` and `Replay` have the proofs. It calls WalletService for every balance.
-- - Workers: internal/adapters/workers. `Messages` is the queue consumer, which calls
--   ProcessTransaction, `References` the worker that calls ResolvePendingReference, and `Outbox` the
--   publisher, on `Store.OutboxRepo`. `Delivery`, `Publishing` and `Starved` have the proofs.
-- - Handlers: internal/adapters/handlers. `Transactions` and `Wallets` are the handlers, from a decoded
--   request and the provider of its context to a reply, `Responses` what they write, and `Serve` the
--   routes. `Reading`, `Invariant`, `Owners`, `Refusals`, `Shown`, `ShownWallets`, `ShownLedger`,
--   `Isolation` and `Replayed` have the proofs. They call the two services.
-- - Middleware: internal/adapters/middleware, and authHandler of cmd/api/main.go. `Keys` is the cache of
--   the keys, `Base64` the decoder that it uses, `Auth` the decision on a token and the correlation id,
--   and `Guard` the handlers behind it. `Trust`, `Validator`, `Admitted` and `Secured` have the proofs.
--
-- A Go string type with constants is a data type with one constructor for each constant and one for
-- any other text. A time is a number, the distance from Go's zero time in nanoseconds. Package jwt, the
-- JSON encoder and decoder, SHA-256 and the answers of the JWKS endpoint, the queue and PostgreSQL are
-- arguments. Logging, metrics, health checks, the clients of SQS and PostgreSQL and process start-up are
-- not modelled: they are input and output.
-- Database sessions that run at the same time are not modelled either: requests, the calls of the
-- services and the rounds of the workers are taken one after the other.
pub mod Prelude
pub mod Errors
pub mod ErrorTexts
pub mod Money
pub mod Wallet
pub mod Wager
pub mod Store
pub mod WalletService
pub mod WagerService
pub mod Workers
pub mod Handlers
pub mod Middleware
