-- ===== src/Lib.antt =====
-- A verification of the gd-classroom backend: group discussions that a moderator leads by voice.
--
-- The program's parts, and the files that model them:
--   * Domain (backend/app/domain): pure rules. Domain/Enums is enums.py; Domain/StateMachines is
--     state_machines.py, with its two tables; Domain/Ledger is ledger.py, who has spoken for how long
--     and who is next; Domain/TurnPolicy is turn_policy.py, follow-ups, the end and the cap on a turn;
--     Domain/Session is session.py, the live discussion; Domain/Privacy is privacy.py, contact details
--     in speech.
--   * Moderation (backend/app/modules/moderation): the session runner of runner.py, which takes
--     commands from a queue, one at a time. Commands holds commands.py and the events that the loop
--     publishes, without those of the speech tasks (MODERATOR_SPEAKING, MODERATOR_INTERRUPTED); State the
--     runner's fields and its small methods; Turns the granting, closing and choosing of turns;
--     Handlers joining, leaving, the moderator's lines and the summary; Answers what participants say
--     or do not say; Loop the dispatch, the main loop, the timers, the speech and the teardown. A
--     method `_on_silence` is `on_silence` here, and so on. Soundness holds the invariant between
--     commands, Behaviour what single commands bring about. Orchestrator (orchestrator.py) is the registry
--     that makes a runner for a session and posts commands to it; a step of the registry is a request,
--     the end of a load or of a runner, or what a runner does, in any order.
--   * Notification/EventBus (backend/app/modules/notification/event_bus.py): the numbered events, the
--     rings that replay them and the subscribers. The runner publishes on it.
--   * Llm/Quota (backend/app/infrastructure/llm/quota.py): which language model may serve, by budget
--     and bench.
--   * Llm/Failures (failures.py beside it): what an error of a provider means for its tier. Llm/Monitor
--     (monitor.py): the events that are recorded. Llm/Router (router.py): the walk down the chain, which
--     reads and writes both the ledger and the monitor; Streams is `stream`, Replies the two other calls
--     and the reading of JSON.
--   * Store (backend/app/db/uow.py, backend/app/api/deps.py and the models of the modules): the rows of
--     one transaction, and how a request commits or rolls back. Store/Actions is the service's method,
--     with its exceptions.
--   * Identity (backend/app/modules/identity, backend/app/core/security.py): tokens and tickets, accounts
--     and the rotation of refresh tokens, the people whom a host invites.
--   * Rooms (backend/app/application/enrollment.py): from the creation of a classroom to the start of its
--     session. Classrooms, Invitations and Sessions are the services of backend/app/modules that
--     Enrollment composes; Ways names the two ways to answer an invitation; Gateway
--     (backend/app/application/session_gateway.py) is what a runner, and the orchestrator without one,
--     write about a session.
--   * Voice/Mixer (backend/app/modules/voice/mixer.py): the shared audio buffers with a cursor for every
--     peer, cut into frames.
--   * Prelude holds what the parts share: tests, lists, dicts, texts, results, identifiers, sorting.
--     Examples applies the theorems at concrete inputs.
--
-- How the program is read. The state of an object is a record and a method is a function on it; a
-- handler that may raise returns an `Outcome`, with what it had done before. What the services outside
-- answer while one command is handled (the database, the models, the clock) is a `World`, and the
-- settings and the regular expressions are a `Setup`; the routines of `audioop` are an `Audioop`. Timers
-- and speech run beside the loop: a step of
-- a discussion is a round of the loop, a timer that fires, a speech that ends or a command that
-- arrives, in any order. Times are natural numbers, microseconds in a session, milliseconds in timers
-- and quotas; a UUID has a value, read by `==`, and an object, read by `is`; a text is the list of its
-- code points. Every loop is a recursion on a list, so that no fuel is needed.
-- A service's method reads and writes the rows of its transaction and returns or raises; requests run
-- one after the other. A provider of models is a function of the rung and the time at which it is called.
--
-- Not modelled: the two events of the speech tasks; prompts and the splitting of sentences, the adapters
-- of the providers, WebRTC, HTTP, SQL
-- and mail, which are input and output; lists for pages, transcripts and summaries in the database; what
-- the gateway loads a session from.
pub mod Prelude
pub mod Domain
pub mod Moderation
pub mod Notification
pub mod Llm
pub mod Voice
pub mod Store
pub mod Identity
pub mod Rooms
pub mod Examples
