-- ===== src/Lib.antt =====
-- Verification of the back end of a bike shop: a Go service over Postgres with a catalogue, an admin
-- area, an importer of price lists and a worker for background jobs. Paths are from the repository's
-- root.
--
-- Texts are lists of runes (Common.Text), integers are the native ones with the wrap-around of int64
-- written out (Common.Int), tables are lists of rows, a transaction is one step, and errors are values
-- (Common.Fallible). Times are natural numbers.
--
-- Platform.Money: internal/platform/money.go. Money, Add (add), Sub (sub), MulRatio (mul_ratio),
--   Decimal (decimal), ParseMoney (parse_money), ParseMoneyRounded (parse_money_rounded, on the
--   fraction that math/big reads) and parseDecimalToMinor (parse_decimal).
-- Platform.Slug: internal/platform/slug.go, with the transform of golang.org/x/text as a parameter,
--   and slugPattern of internal/service/common.go as an automaton (Slug.Shape). UniqueSlug runs on
--   fuel; one round more than there are taken candidates is enough.
-- Platform.Pages: ClampLimit of internal/platform/pagination.go.
-- Domain: internal/domain/price.go and the enumerations of product.go and import.go.
-- Service.Views: loadPrices of internal/service/assemble.go. Service.Cards: the stock loop of
--   enrichSummaries in internal/service/listing.go. Service.Subscribers, Service.Links: the double
--   opt-in of internal/service/subscribers.go.
-- Jobs: internal/store/gen/jobs.sql.go (from db/queries/jobs.sql), row by row (Jobs.Rows) and on the
--   table (Jobs.Queue), and ProcessNext and run of internal/jobs/runner.go (Jobs.Runner) with the
--   handlers as parameters. Rows that other transactions have locked are an argument of a claim.
--   Jobs.Drained has workers that claim one job after the other at one time, Jobs.Failing workers that
--   call ProcessNext one after the other.
-- Auth: internal/auth/service.go. Login and its lock (Auth.Lockout, Auth.Login, Auth.Throttle), and
--   sessions, devices, pairing codes and password changes (Auth.Sessions, Auth.Access, Auth.Pairing),
--   with the statements of internal/store/gen/users.sql.go. Hashing is a parameter. Login reads the row
--   and writes to it in separate statements; `login` is one whose statements no other login of the
--   user comes between, and logins that run in parallel are not modelled.
-- Importer: levenshtein of internal/importer/cells.go (Importer.Distance), groupRows of sheet.go
--   (Importer.Groups), matchExisting and the end of Stage (Importer.Staging, Importer.Reviewable),
--   SetDecision, Abort and the guards of Commit (Importer.Review, Importer.Closing,
--   Importer.Requests, Importer.Ready) of importer.go. JSON keys and signatures are parameters.
--   Products may be deleted between requests, which empties the targets of rows.
-- Media.Exif: internal/media/exif.go. A read past the end of a slice is an error; the scan has as much
--   fuel as the file has bytes.
-- Http.Gate, Http.Pass: Authenticate and RequireSession of internal/http/middleware/auth.go; the hash
--   of a token and the check of a CSRF token are parameters.
-- Service.Validation: internal/service/common.go, the checks of a name, a slug and an If-Match header;
--   FreeSlug has its rounds as an argument, and Taxonomy gives one more than there are categories.
-- Taxonomy: the categories of internal/service/taxonomy.go with the statements of
--   internal/store/gen/categories.sql.go. An ltree path is a list of labels. The rows that a request
--   reads before its transaction and the rows that it writes are two arguments, so that requests can
--   interleave. Brands and suppliers are left out.
-- Taxonomy.Registry: the attributes, options and bindings of the same file, with the statements of
--   internal/store/gen/attributes.sql.go and the constraints of the tables: CreateAttribute,
--   UpdateAttribute, DeleteAttribute, CreateOption, UpdateOption, DeleteOption, BindAttribute and
--   UnbindAttribute (Registry.Requests), their inputs (Registry.Inputs), loadCategorySchema, and any
--   sequence of them (Registry.History). The collation of texts is the parameter `text_before`.
-- Schema: internal/domain/attribute.go (Schema.Attributes), and of internal/service/schema.go
--   decodeValue and apiValue (Schema.Values), the maps of a schema, displayValue, views and projection
--   (Schema.Views), and insertValues and mergeValues over the rows of product_attribute_values, which
--   come back in any order (Schema.Stored). encoding/json and float64 are parameters.
-- Products: internal/service/products.go with internal/store/gen/prices.sql.go and products.sql.go: the
--   prices (Products.Prices) and the variants (Products.Variants) that a document writes, the
--   check of a document against its schema, validateDocument (Products.Inputs, Products.Documents), and
--   CreateInTx and UpdateInTx over the tables (Products.Saving). JSON values are texts; `new_id` numbers
--   the ids that are minted; UpdateInTx reads `seen` and writes to `tables`. The search for a slug
--   has one round more than there are products.
-- Importer.Commit: apply and applyGroup of the committer in internal/importer/importer.go, over an
--   interface of the services it calls.
-- Common holds what the modules share, Examples runs and concrete inputs.
--
-- Not modelled: HTTP handlers and the other middleware, configuration, e-mail, object storage, image
-- decoding, process start and stop, goroutines and timers, the public catalogue's queries and filters,
-- UpdateVariantInTx, the deletion of products, the projections of variants and those that are rebuilt
-- when an attribute is unbound, media attachments, brands and suppliers, form schemas, audit entries,
-- and the reading of sheets.
mod Common
pub mod Platform
pub mod Domain
pub mod Importer
pub mod Jobs
pub mod Auth
pub mod Service
pub mod Taxonomy
pub mod Schema
pub mod Products
pub mod Media
pub mod Http
mod Examples
