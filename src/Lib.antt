-- ===== src/Lib.antt =====
-- A model of Piki, a WhatsApp assistant: durable, idempotent message handling around a database and
-- a Redis server, and replies that are grounded in confirmed evidence.
--
-- The program receives Meta's webhooks, records each inbound message and its conversation, queues
-- it, lets a worker claim it and answer it under a lock of its conversation, and delivers the answer
-- through a durable delivery attempt, whose state later callbacks of the provider move on. A reply
-- is composed by intent: a request for a person is stored, a search asks the BuenPick API through a
-- client with retries, and a language model words the answer, which is checked against the evidence
-- and replaced by a fallback where it fails. The parts that are modelled, and their files:
--
--   src/piki/domain/contracts.py         Domain: the types and the validators
--   src/piki/db/models.py, session.py    Db: the tables as lists of rows, a session that commits or
--                                        rolls back
--   src/piki/delivery/service.py         Delivery: Store (claim, finalize, apply_callback), Service
--                                        (send), System (workers that interleave)
--   src/piki/db/processing.py            Processing: Store (claim_next, complete, fail)
--   src/piki/db/conversations.py         Conversations: Store (record_inbound, recent_messages,
--                                        find_conversation_id, record_outbound, find_message)
--   src/piki/db/handoffs.py              Handoffs: Store (request)
--   src/piki/state/coordination.py       Coordination: Redis (the server's laws), Keys, Locks, Dedup
--   src/piki/observability/events.py     Observability: records and emit
--   src/piki/integrations/meta/webhook.py   Meta: Status (the status update), Payload, Webhook (the
--                                        checks, normalize_webhook)
--   src/piki/integrations/meta/delivery.py   Meta: Adapter (send), Bodies (what it posts)
--   src/piki/integrations/meta/ingress.py   Ingress: Service (ingest), over Conversations, Coordination
--                                        and Delivery
--   src/piki/state/active_pick.py, pending_actions.py   PickState: Values (the store and the JSON),
--                                        Active, Actions
--   src/piki/integrations/buenpick/models.py   BuenPick: Models, Money (format_ars_cents)
--   src/piki/integrations/buenpick/client.py   BuenPick: Client (the requests and the attempts)
--   src/piki/tools/buenpick.py           BuenPick: Tools
--   src/piki/evidence/buenpick.py        BuenPick: Evidence
--   src/piki/composition/grounding.py    Composition: Patterns (the regular expressions), Grounding
--   src/piki/composition/contracts.py, service.py, engine.py   Composition: Engine
--   src/piki/prompts/policies.py         Composition: Policies
--   src/piki/integrations/llm/openai_chat.py, openai_responses.py   Llm: Request (what both share),
--                                        Chat, Responses
--   src/piki/conversation/service.py     Conversation: Intents, Service (the bodies of respond and
--                                        respond_persisted), Locked (the lock around them), Compose
--                                        (_compose_reply)
--   src/piki/conversation/worker.py      Conversation: Worker (process_once), Settled and Handled (what
--                                        becomes of its claim)
--   src/piki/worker/main.py              Process: Loop (run_worker), over a worker
--   src/piki/use_cases/pick_image.py     UseCases: PickImage
--   src/piki/core/config.py              Config: Settings, Factories (the factories of
--                                        integrations/meta, llm and buenpick that check them)
--   src/piki/api/app.py, meta_webhook.py, chat.py, health.py   Api: App (create_app), Answers (what a
--                                        route answers), Webhook, Chat, Health
--
-- Base holds the shared helpers, with decimal digits, URL quoting and a matcher of regular
-- expressions, Sql the meaning of SELECT, UPDATE and INSERT and its laws, Tests runs of the model at
-- concrete inputs.
--
-- How the model corresponds to the code: a database statement is a function on the tables, and a
-- `with session` block is a function from tables to a result and tables, with the old tables where
-- it raises. uuid4(), clocks, secrets, answers of other services and what a connection loses are
-- arguments. An exception is a value of Failure. `emit` raises where a record is out of bounds; where
-- the fields come from a value whose type has the same bounds, the record is built without the test.
-- A timestamp is a number of microseconds, a UUID a
-- number. A unique or foreign key that an INSERT would break is tested against the rows. Rows that
-- other transactions lock are a test on identifiers. A transaction is one step of an interleaving:
-- PostgreSQL's isolation of concurrent statements is not modelled further. Redis and SHA-256 are
-- parameters; a Redis is given by what its commands do to the value of a key at a time. Parameters
-- too are HMAC-SHA-256, what each HTTP request meets, pydantic's reading of a body, the tables of
-- Unicode (case, word characters, decimal digits), Jinja's rendering and the system prompt.
--
-- Interfaces: Conversation/Service takes a Composer, which Conversation/Compose fills; Delivery's
-- send takes an adapter, of which Meta/Adapter is the one for Meta, and Composition/Engine an
-- adapter of a language model, of which Llm has two.
--
-- Fuel and bounds: the digits of a number n run on the fuel n + 1, and so does the search for the
-- unit that Decimal's 28 digits of precision round to, both of which at least halve what is left at
-- each step; a repetition in a regular expression consumes a character at each turn, so the text
-- bounds it; the loops over attempts run over the attempts that are left, as `range` does. Every
-- other loop is a recursion on a list.
--
-- The routes take the ingress and the orchestrator as arguments, as their routers do.
--
-- Not modelled: column widths, pydantic's coercions, the rendering
-- of prompts, the names, addresses and fractional numbers among the settings, the metadata of the
-- application, signal handlers and the command line, logging.
pub mod Base
pub mod Domain
pub mod Sql
pub mod Db
pub mod Observability
pub mod Meta
pub mod Delivery
pub mod Process
pub mod Processing
pub mod Conversations
pub mod Handoffs
pub mod Coordination
pub mod Ingress
pub mod BuenPick
pub mod PickState
pub mod Composition
pub mod Llm
pub mod UseCases
pub mod Config
pub mod Api
pub mod Conversation
pub mod Tests
