-- ===== src/Lib.antt =====
-- A verification library of the tokenization platform: the services that list tokenized assets,
-- trade them through 2-of-3 escrows on Liquid, and keep the users' wallets. The services are
-- Python over PostgreSQL; what is modelled is the logic between the HTTP layer and the database.
--
-- The parts and their files:
-- - Common: lists, options, dictionaries, integers, tables with the SQL statements that the
--   services issue (SELECT .. WHERE, UPDATE .. WHERE .. RETURNING, ORDER BY .. LIMIT 1), and
--   their laws.
-- - Database/Model, Rows, Assets, Users, and Database/Tx: the tables of
--   services/common/db/metadata.py, and a database connection. A connection has a committed state
--   and the state that its open transaction sees; an operation returns or raises and leaves a
--   connection behind either way. `attempt` is the `try: .. except Exception: await
--   conn.rollback(); raise` of the source, and `connected` a connection of its own. Tx/Moves,
--   Rules, Returns, Atomic, Quiet, Maintains, Rests: rules for programs over a connection, by
--   what an operation does to it whatever it returns or raises.
-- - Market/Orders, Book, Balances, Treasury, Trading, Escrows, Disputes: the functions of
--   services/marketplace/db.py under their names, without a leading underscore.
-- - Market/Keys: services/marketplace/escrow.py. What the embit library and the custody backend
--   compute is the record `Keys`, a parameter.
-- - Market/Placing: the handlers place_order and delete_order of services/marketplace/main.py and
--   the identity check of services/auth/kyc_db.py.
-- - Wallet/Ledger, Addresses, Lightning, Reconcile: the functions of services/wallet/db.py, and
--   the reconciliation of deposits with the Elements node of services/wallet/reconciliation.py;
--   what the node answers is an argument. Wallet/Books: the ledger that the reconciliation keeps.
-- - Wallet/Service, Withdrawing: withdraw_onchain of services/wallet/main.py, with the cached
--   answers and the keys in flight; the node, the custody backend, the embit library and the
--   audit record are the record `Backend`, a parameter. Wallet/Pegout: pegout_to_mainchain.
--   Wallet/Reservations, Withdrawing/Settled to Paid: what a withdrawal does to the books.
--   Withdrawing/Caching, Replayed: an idempotency key that is used twice.
-- - Wallet/Syncing: reconcile_withdrawals and sync_wallet_lightning_state of
--   services/wallet/reconciliation.py.
-- - Wallet/Yield: accrue_pending_yield_for_user of services/common/incentives.py; the decimal
--   division of the source is exact for all amounts below 10 ^ 20.
-- - Common/Pages, Market/Paging, Wallet/History: the pages of orders, trades and transactions
--   (_build_page, _build_transaction_page). A client that walks through them needs at most one
--   request more than there are rows, which is the fuel of `walk`.
-- - Assets/Evaluation: services/tokenization/evaluation.py. Scores and returns are hundredths,
--   computed exactly; the float rounding of the source agrees, since no sum is near a tie.
--   Assets/Store, Listing: the statements of services/tokenization/db.py. Assets/Service: the
--   handlers and the evaluation task of services/tokenization/main.py; a task can fail before or
--   after it stores its result, or be cancelled. Assets/Minting: the transaction that issues a
--   token. Assets/Lifecycle: the service as a step relation, in which the statements of all
--   requests and tasks interleave, and rows that were read earlier are remembered.
-- - Auth/Sessions: the sessions of services/auth/db.py and the handlers refresh, logout and login
--   of services/auth/main.py. Auth/Accounts: registration and the Nostr login, the handlers
--   register and nostr_login. Auth/Referrals: the referral rewards of
--   services/common/incentives.py, and the verification of identities (services/auth/kyc_db.py,
--   submit_kyc and update_kyc_admin of services/auth/main.py). What decodes a token or compares a
--   password is an argument.
-- - Security/RateLimit: the rate limiter of services/common/security.py, with times in
--   microseconds.
-- - Market/Operation, Pending, Atomicity, Integrity: the writing operations of the marketplace as
--   one type, and what holds of all of them.
--
-- Conventions. Identifiers (UUIDs) and times (microseconds) are natural numbers: the code
-- compares them, and takes times apart only into days; amounts and quantities are natural numbers
-- too, as the CHECK constraints demand, and a subtraction that the source guards or clips at 0 is
-- the truncated one. The treasury balance is an integer. The identifiers and the time that a call
-- draws are arguments (`Stamp`). SQL integers are 64 bits wide and Python's are unbounded;
-- overflow of a BIGINT column is an error of the database and is not modelled. The
-- reconciliations of services/wallet/reconciliation.py run on the connection that they are given
-- and at one time, where the source opens connections of its own and reads the clock for each
-- row; importing an address and its blinding key into the node succeeds or fails as one. Lower
-- case is that of ASCII. The merge of metadata in mark_escrow_funded is the one that the
-- statement means, which PostgreSQL does not have between jsonb and json.
--
-- The matching loop of place_order has no bound in the source. Market/Placing/Loop has it as a
-- relation whose steps are the turns of the loop and what other requests commit between them;
-- Market/Placing/Handler has it on fuel, and the fuel that is enough is computed from the table
-- of orders (Market/Placing/Work): each turn that does not end the loop fills two orders or
-- cancels one. Other requests that run between the turns can add orders, and have no part in that
-- bound.
--
-- Not modelled: HTTP, serialisation and the check of access tokens, the second factor, education,
-- administration, metrics, alerts and audit records, the event bus, the nodes (Bitcoin, Elements,
-- LND), and the front end.
pub mod Common
pub mod Database
pub mod Assets
pub mod Auth
pub mod Market
pub mod Security
pub mod Wallet
