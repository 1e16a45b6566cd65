-- ===== src/Lib.antt =====
-- Verification of Niyam AI, a workspace for GST compliance: purchase registers are imported,
-- validated, reconciled with the GSTR-2B that the tax network holds, and scored for readiness.
--
-- The parts and their files
--   Base: texts as lists of code points, dates with `datetime`'s day numbers, lists, sorting, and
--     the two interfaces to floats. `Floats` names the operations that the code uses; `IsOrdered`
--     and, for the score, `IsRounding` are what a theorem relies on, and hold of floats but NaN.
--   Ingestion (backend/app/ingestion): Numbers is `normalize_invoice_number`, Money is
--     `rupees_to_paise`, Invoice is the canonical invoice with its content hash, Csv is
--     `parse_invoice_csv` with its reject handlers, and Gstr2b is gstr2b_parser.py.
--   Validation (backend/app/engines/validation): Gstin is gstin.py, Rules is rules.py and
--     pipeline.py, Context is types.py. Meaning says what each rule demands.
--   Recon (backend/app/engines/reconciliation): Lines and Summary are types.py, Score is
--     scoring.py and Passes is passes.py, where the pairs and the two sets of a pass are the state
--     `Progress` that the loop over the candidates hands on.
--   Scoring (backend/app/engines/scoring): calculator.py and types.py, on the summary of Recon.
--   Gsp (backend/app/gsp): Retry is the loop of retry.py, where the wrapped call is a function from
--     the number of the attempt to what it does and the waits are the trace. The rest is service.py:
--     Rows are the tables and the consents in flight, Consent the operations on consents and
--     sessions, Live the sequences of them, Reload the loading of a session, Pull a pull through the
--     retries and the parser of Ingestion (with backend/app/ingestion/writer.py), Periods the periods
--     that are due or offered, Scheduler the sweep over the GSTINs.
--   Auth: the lockouts of backend/app/auth/lockout.py and backend/app/gsp/lockout.py, on an
--     interface to Redis; RateLimit is backend/app/auth/rate_limit.py; Tables and
--     Accounts are service.py, password_reset.py and passwords.py there, with the invitation of
--     backend/app/api/invites.py; Tokens, Invitations and Logins follow sequences of their calls.
--   Rules: the choice of the rule pack of backend/app/rules/pack.py.
--   Delivery (backend/app/whatsapp): Rows are the tables and what the provider received, Requests and
--     Sending are service.py with gate.py, Webhook its callbacks, Serving the sequences of calls.
--     Requests has the endpoint of backend/app/api/workspace.py that records a review.
--   Filings (backend/app/filings): Service is service.py, on the table of filing runs with the audit
--     log; a request that raises leaves the session as it was. Gstr3b and Gstr1 are
--     gstr3b_generator.py and gstr1_generator.py, on lists of rows; Gstr3b has the period of types.py.
--   Reminders (backend/app/reminders): Sweep is the sweep of one firm in sweep.py, and
--     Notify the notification of the admin in backend/app/whatsapp/notify.py. Log has the state: the
--     log with its constraint, the messages that went out and the report. The sweep is one
--     transaction, which an exception takes back, as firm_scoped_session of backend/app/db.py does.
--   Tests: concrete inputs for the theorems.
--
-- Bounds and fuel: the walk over digit runs has fuel for each character, which
-- `walk_runs-canonical` shows to be enough; printing a number has fuel for the number itself, and so
-- has the count of the digits over the 28 of decimal's context (`context_digits`). The
-- retry loop is bounded by the attempts of the policy, as in the code. All else is structural.
--
-- Conventions: a UUID is its number, since UUIDs print at one width; paise are natural numbers, as
-- the parsers refuse negative amounts; characters are classed as ASCII does; an exception is a
-- value of the result; a message for people is left out.
--
-- Calls of one service are sequences: each is served to its end before the next begins. Row level
-- security is a test on the firm of a row. The clock, new identifiers and the replies of vendors
-- are arguments.
--
-- Not modelled: database sessions, HTTP routes and transports, the libraries (`csv`, `decimal`,
-- `difflib`, Redis, hashing), which are parameters where the code above calls them, and the parts
-- that no file names.
pub mod Base
pub mod Ingestion
pub mod Validation
pub mod Recon
pub mod Scoring
pub mod Gsp
pub mod Auth
pub mod Filings
pub mod Reminders
pub mod Delivery
pub mod Rules
pub mod Tests
