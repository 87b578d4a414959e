-- ===== src/Lib.antt =====
-- deciscope-api: the API server of DeciScope, which follows online meetings with a bot and analyses
-- what is said (Go, under internal/).
--
-- The bot joins a meeting and reports its status; MeetingSessionService
-- (internal/application/meeting_session.go) keeps the life of each session in the table
-- meeting_sessions and starts the finalization when a meeting ends. A watchdog
-- (internal/application/meeting_session_watchdog.go) scans the sessions, publishes what it sees of
-- the bot and of the transcript, and ends the sessions of bots that are silent. Final segments of
-- the transcript go to MeetingAnalysisService (internal/application/ai_analysis.go), whose scheduler
-- (internal/application/ai_live_scheduler.go) decides when a round of the live analysis starts.
-- The events of a meeting are numbered in a store and go to the connected clients
-- (internal/adapter/realtime). Users log in, create workspaces and invite others to them
-- (internal/application/auth, internal/application/workspace). Browsers report diagnostics of what they
-- show, which are cut and redacted before they are logged (internal/application/client_diagnostics.go).
--
-- Files and the code that they model:
--   Base       helpers: tests, lists, signed integers, Go's time, maps, texts and (value, error).
--   Domain     internal/domain/model.go and workspace_role.go: statuses, sessions, segments, roles.
--   Session    internal/application/meeting_session.go. Input, State and Update are its data; Policy
--              and Titles its decisions; Service is UpdateMeetingSessionStatus with the finalization,
--              Ending is EndMeetingSession, Queries the heartbeat, the cleanup, the read and the
--              deletion. Repository is the port of internal/application/ports.go with the laws that
--              the service relies on, and Rows its statements in
--              internal/adapter/repository/postgres/meeting_session.go. Stamps, TitleRank, Revival,
--              Away, Failures, Finalization, Single and Freshness are proofs about the service, RowFind,
--              RowWrites and RowLaws about the table.
--   Health     Activity, Metrics, Media: internal/application/transcript_activity.go,
--              bot_media_metrics.go, bot_media_health.go. Gap and Watchdog:
--              meeting_session_watchdog.go. Proofs: Verdicts, Reports and Scans.
--   Live       State, Texts, Queue, Timing, Trigger, Dispatch: internal/application/
--              ai_live_scheduler.go. Rounds: the changes of the same state in ai_analysis.go.
--              Proofs: Bounds, Pending, Distinct, Starts, Arms, Steps, Once.
--   Events     Data: internal/domain/model.go. Store: internal/adapter/repository/memory (store.go,
--              meeting.go, event.go). Service: internal/application/meeting.go. Client:
--              internal/adapter/realtime/client.go and handler.go, Hub: hub.go. Appending, Numbering and
--              Logs are proofs about the store, Order, Written, Synced and Delivery about the client,
--              Rooms about the hub.
--   Access     Memory, Invites: internal/adapter/repository/memory/auth_workspace.go. Workspaces,
--              Inviting: internal/application/workspace. Logins: internal/application/auth/service.go
--              with the sessions of the memory repository. Roles, Owners, Ownership, Visits, Steps,
--              Tokens and Accepted are the proofs.
--   Diagnostics  internal/application/client_diagnostics.go. Limits, Details, Shrink and Recorder are the
--              code, Names internal/domain/client_diagnostics.go; Bounds, Redaction, Shrunk, Largest,
--              Tallies, Throttle, Sources and Repeats are the proofs.
--   Tree       internal/application/ai_tree_integrity.go: Shape is the index of the nodes and the checks of
--              the parents and of the chains. Chains, Reported and Rooted are the proofs.
--   Scenarios  concrete data and runs.
--
-- How the code is read. A method is a function on the state of its component and gives its answer
-- with the new state; an error keeps what was written before it. The clock is an argument of each
-- operation that reads it. A goroutine is an entry of the state, and its end an operation. An
-- operation runs to its end before the next one starts: for the scheduler that is its mutex, while
-- two status updates of the same session may overlap in the server, which is not modelled. A
-- statement of the repository may fail at any time. Instants are natural numbers of nanoseconds since
-- Go's zero time, durations are signed, and Sub saturates as in Go. Two things need fuel: the
-- digits of a number, which has fewer digits than its value plus one, and the walk from a node of a tree
-- to the root, which sees each node once and needs one step more than there are nodes.
--
-- Parameters: the repository under the service, the order in which the database sorts the texts of two
-- instants (Session.Rows, `older`), the ports of the watchdog, what Go's regular
-- expressions and Unicode tables say of a text (Live.Texts), how fmt prints a duration, the JSON of the
-- events (Events.Data.Codec), the hash of the tokens and what is an address (Access.Inviting.Tools), and
-- the formats of the package time (Access.Data.Clocks), and of the diagnostics the regular expressions,
-- the size of JSON and the parser of times (Diagnostics.Recorder.Tools). Random identifiers and tokens,
-- and the answers of the mailer and of the token verifier, are arguments of the calls.
--
-- Not modelled: the creation of a session with its join command and the update of its metadata; the
-- content of the live analysis (the merge into the tree, classification, validation, and of the
-- check of a tree its agenda and its edges), the pipeline of the finalization and the tree audit;
-- the hub of the transcripts; the tick that forgets the scheduler's state of a session; the
-- ingestion of transcripts; the HTTP adapters, the database driver and the clients of other
-- services, which are input and output; logging.
pub mod Base
pub mod Domain
pub mod Session
pub mod Health
pub mod Live
pub mod Events
pub mod Access
pub mod Diagnostics
pub mod Tree
pub mod Scenarios
