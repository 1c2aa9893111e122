-- ===== src/Lib.antt =====
-- LeadFlow V3 server: a CRM back end in Go over PostgreSQL. Users sign in, one live session each; roles rank
-- who manages whom; leads are created, assigned to teams and sales executives, and listed in the narrowest
-- scope of the actor; an SSE hub tells the clients of changes; limits in memory bound logins, exports and
-- the response cache.
--
-- The parts, by file:
-- - Roles: roles.go, every test and list; Roles/Ranks their ordering.
-- - Db: the rows of the tables (the columns that the modelled statements name) and Db/Statements the calls of
--   pgx. A handle `Conn` holds the database and the answers that the next statements meet (run, fail, be
--   refused by a foreign key), so that each error path is a value; `transact` is Begin, deferred
--   Rollback, body, Commit. Db/Triples reasons about them; Db/Samples is the data of the tests.
-- - Users: users.go (FindByID, CountByRole, SetActive, ReplaceActiveSession, ClearActiveSessionIfCurrent),
--   Users/Deletion `Delete`, Users/Transfers `TransferSalesExec`,
--   Users/Analysts `TransferLeadAnalyst`; session.go `sessionHash`.
-- - Qualification: qualification.go, on the character codes of a text.
-- - Leads: Leads/Visibility the row tests of the scoping SQL of leads.go, Leads/Assign `AssignLeads` and
--   Leads/Delete `DeleteLeads` of assign.go; Leads/Edit `Update` and Leads/Edit/Create `Create`, Leads/Status
--   `UpdateQualificationStatus` and `MarkNotAppropriate`, Leads/Outcome `UpdateSalesOutcome`, Leads/Detail
--   `GetByID` of leads.go; Leads/Log qualification_log.go; Leads/Sound the invariant of the lead rows, and
--   Leads/Calls sequences of all these calls.
-- - Leads/Conditions: the WHERE clauses of the lists (leads.go, search.go, geo_filter.go) as lists of pieces
--   with their arguments; Leads/Pages: `List` of leads.go, its order, its cursors and its pages.
-- - Notifications: notifications.go, the recipients and the statements of `NotifyStaff` and `CreateMany`.
-- - Validate: validate.go, the checks of the fields of a request, and `itoa`.
-- - Access: handlers.go (applyActorLeadScope, requireLeadAccess) and user_admin.go (actorMayManageTarget).
-- - Session: session.go and httpx.go (loadAuthedUser).
-- - Limits: ratelimit.go, response_cache.go, and the export lock of handlers_leads_export.go.
-- - Hub: realtime.go, `RealtimeHub`.
--
-- A theorem `Runs m d Q` is about the calls of `m` on a database `d` that end without an error: the value and
-- the database they leave meet `Q`. `Works m d Q` (Db/Totals) says that, when every statement is answered, the call does
-- succeed and meets `Q`. Every definition is total: the loops over lists and
-- over a text's length end by structure or by a measure. Two loops count their turns: `batches` of
-- Notifications has one turn for each recipient, which is enough as each batch takes one at least, and
-- `write_digits` of Validate has the twelve bytes of the code, past which the code panics. Time, uuids, hashes,
-- token parsing, PostgreSQL's case folding and order of texts, and strings.EqualFold of two stored
-- names are parameters. A mutex makes a method one step; concurrent transactions are not interleaved.
--
-- Not modelled: the display texts and the count of a list of leads, its summaries and its export (leads.go,
-- leads_export.go), the logs of transfers (transfers.go), the creation and the editing of users (users.go),
-- reports and KPIs (report.go, kpi.go, dashboard.go), what a user received (notifications.go), uploads, Redis,
-- the migrations but for the foreign keys that a deletion meets, routing and the commands under cmd/: SQL aggregates, I/O and glue around the
-- modelled parts.
pub mod Base
pub mod Roles
pub mod Db
pub mod Users
pub mod Validate
pub mod Notifications
pub mod Qualification
pub mod Leads
pub mod Limits
pub mod Hub
pub mod Access
pub mod Session
