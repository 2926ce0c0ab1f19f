-- ===== src/Lib.antt =====
-- Invora: the back end of an inventory and demand forecasting service, in Python under app/. Each
-- module of app/modules has pure rules (domain), a service that runs one request (application), a
-- repository over SQLAlchemy (infrastructure) and its routes (api). This library models the modules
-- whose state changes matter most, from the rules to the transactions:
--
-- Auth (app/modules/auth and app/modules/users). `Passwords` and `Tokens` are auth/domain, `Profile` is
--   users/domain/profile.py, `Rows` the tables and the methods of both repositories, `Service` is
--   AuthService, `Account` UserProfileService and `RateLimit` auth/infrastructure/rate_limit.py.
--   `PasswordRoundTrip`, `TokenLaws`, `Genuine` and `RateLaws` are about single rules. `Kept` and
--   `Operations` say what every request keeps, `History` serves requests one after the other, `Unique`
--   is about the unique indexes, `SingleUse`, `Spent` and `Once` about refresh tokens.
-- Products (app/modules/products). `Sku` and `Values` are domain/catalog.py, `Rows` the tables and the
--   methods of infrastructure/repositories.py, `Service` is application/service.py: `add_product` is
--   create_product, `change_product` update_product, `retire_product` archive_product, and so for
--   categories. `Canonical` is about SKUs, `Prices` about prices; `Unique`, `Writes`, `Operations`
--   and `History` about the unique constraints, from one write to a history of requests; `Archive` is
--   about archived categories.
-- Sales (app/modules/sales). `Upload` and `Row` are domain/upload.py, the file and one row of it, `Rows`
--   the tables and the methods of SalesUploadRepository, `Service` is SalesUploadService. It looks
--   SKUs up in the table of `Products`. `Counts` and `Stored` are about what an upload stores, `Accepted`
--   and `Valid` about an accepted row. `Transactions` is domain/transactions.py, `Changes`
--   SalesTransactionService with the methods of its repository: `add_transaction` is create_transaction,
--   `change_transaction` update_transaction. `Deleted` and `Final` are about a deleted transaction in a
--   history of requests, `Totals` is about the total.
-- Inventory (app/modules/inventory). `Quantity`, `Movement` and `Values` are domain/stock.py: the
--   normalization of quantities, the types of movement and their effect, the values of a request.
--   `Rows` are the tables of infrastructure/models.py with the single-row methods of
--   infrastructure/repositories.py, `Service` the operations of application/service.py:
--   `create_item` is create_inventory_item, `move_stock` is create_stock_movement, the others keep
--   their names, and `handle` and `serve` run a request and a history of requests. `Bounds` and
--   `Effects` are about the rules; `Accounting` defines the ledger's balance; `Balanced`,
--   `Thresholds`, `Writes`, `Steps`, `Opening` and `Ledger` are about it, from one write to a history.
-- Jobs (app/modules/jobs). `Status` and `Summary` are domain/rules.py, `Rows` the table and the
--   repository, `Dispatcher` application/dispatchers.py, `Service` and `Operations`
--   application/services.py, and `Worker` is tasks.py. `Transitions` states the status machine as a
--   relation; `Slots` and `Execution` are about what the worker leaves in the rows; `Active`, `Keeps`,
--   `Marks`, `Single`, `History` and `Replay` are about the unique index on active jobs, from one write
--   to a history of operations; `Found` is about `get_job`, `Cancelled` about
--   `cancel_job`.
-- Recommendations (app/modules/recommendations). `Policy` are the rules of domain, `Row` is
--   _build_recommendation_row, `Tables` the tables and the methods of infrastructure/repositories.py,
--   and `Service` generates the recommendations of a forecast run and changes their status; `Groups` is
--   about the products and the rows of a run, `Stored` about replacing rows, `Generation` about both;
--   `Refused` is about a generation that raises.
--
-- Below these, `Base` shares helpers, `Text` is Python's text as a list of code points, `Decimal` is
-- decimal.Decimal, `Result` a value or an exception, and `Exec` a method that runs on a session and may
-- raise: a raise keeps what the session has become, and only a commit outlives the request.
--
-- Loops of the source run over lists and are structural recursions, so that no fuel is needed. Numbers
-- are unbounded as in Python; a column of type Numeric(14, 3) refuses what it cannot hold. The
-- quantities of such columns are counts of thousandths, and `max_units` is 10 ^ 14 of them.
--
-- Parameters: the hash functions, base64, JSON and Unicode's tables (`Hashing`, `Codec`, `Characters`, `Casing`),
-- the csv module and strptime (`Files`, `Locale`),
-- the commands of Redis (`Redis`), what the random generators draw, RQ on Redis (`Queue`, its answers), the end of the forecasting call (`Outcome`), what
-- other sessions commit between a query and an insert (`race`), the text of a new identifier (`label`)
-- and the clock. Identifiers are numbers, in place of random UUIDs, and the next one is fresh.
--
-- Not modelled: the texts of messages, row locks (a request runs alone but for `race`), columns that no
-- modelled code reads, `lower` and the digits of a number beyond ASCII, the sign of a zero, and the
-- queries that list, filter or summarize rows. The other modules of app/modules, the HTTP
-- layer, the configuration and the migrations are not modelled.
pub mod Base
pub mod Text
pub mod Result
pub mod Exec
pub mod Decimal
pub mod Auth
pub mod Products
pub mod Sales
pub mod Inventory
pub mod Jobs
pub mod Recommendations
