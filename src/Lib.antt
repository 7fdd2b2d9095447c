-- ===== src/Lib.antt =====
-- A model of the core of yaad-grove, a consent-gated chat bot, and theorems about it.
--
-- The program. A transport turns what happens on a chat platform into an `Inbound` message or button
-- click (internal/transport/transport.go). The handler (internal/runtime/handler.go) asks the consent
-- gate what to do with it, records it in the quarantine log, the transcript and the conversation
-- buffer as far as the gate allows, and asks the engine for an answer, whose model calls the spend
-- meter counts. A button carries a token, which the store of pending actions resolves once; the verb
-- that it names runs only for a user with the tier for it. Direct messages grant and withdraw consent.
--
-- The files.
--   Base                 helpers: tests, lists, association lists, 64-bit integers, strings
--   Core                 the types of internal/core/engine.go and internal/transport/transport.go
--   Core/Names           `DisplayName` of internal/core/engine.go
--   Budget               internal/budget/budget.go (`Meter`: New, Allow, Record, Remaining,
--                        rollLocked) and internal/runtime/metered.go (`Chat`)
--   Pending              internal/pending/pending.go (resolveRecord and the in-memory store)
--   Pending/Bolt         internal/pending/bolt.go, the same store in a bbolt bucket
--   Acl                  internal/acl/acl.go (`Gate.Check`, nudge, the rate limit) and
--                        internal/acl/authority.go (tiers, Authorize, SetConsent, SetTier)
--   Acl/Overlap          checks of the gate that overlap, each a read and the rest
--   Acl/Laws             what the gate relies on in its store, and a table that has it
--   Memory               internal/memory/memory.go, the conversation buffer
--   Memory/Select        internal/memory/select.go, the turns that enter a prompt
--   Runtime/Policy       internal/runtime/policy.go and strings.go
--   Runtime/Verbs        internal/runtime/registry.go, verbs.go, proposer.go, and
--                        executeAction of internal/runtime/handler.go
--   Runtime/Consent      internal/runtime/consent.go, the consent flow of direct messages
--   Runtime/Services     what the handler is given, and the state it changes
--   Runtime/Logs, Turns  the logging, and the answering and buffering, of internal/runtime/handler.go
--                        and internal/runtime/memory.go
--   Runtime/Handler      internal/runtime/handler.go, NewHandler and resolveCallback
--   LongMemory           internal/core/longmemory.go (Withdraw, use, keep) and
--                        internal/runtime/erase.go (`Eraser.Erase`)
--   Engine/Refusal       `parseRefusal` of internal/core/engine.go
--   Engine/Context       `approxTokens` and `capContext` of internal/core/prompt.go
--   Engine/Prompt        `retrievalQuery`, `material`, `historyMessages` of internal/core/engine.go and
--                        `renderInstructions` of internal/core/prompt.go
--   Engine/Answer        `Engine.Answer` of internal/core/engine.go
--   Store                internal/store/store.go, the documents of the vault
--   Store/Normalize      internal/store/normalize.go (`normalizeKey`)
--   Store/Structured     `buildStructured`, Enumerate and Dimensions of internal/store/memory.go
--   Store/Ordered        `buildOrdered` and Ordered of internal/store/memory.go
--   Tools/Arguments      the arguments of kb_enumerate, internal/tools/enumerate.go
--   Tools/Enumerate      `intersect`, `ordered` and `call` of internal/tools/enumerate.go
--   Tools/Text           the text of the answers of kb_enumerate and kb_dimensions, and the routing of a
--                        call, internal/tools/enumerate.go and dimensions.go
--   Tools/Vault          kb_enumerate over the memory store
--   Tools/Registry       internal/tools/registry.go, the host of the tool servers
--   Tools/Agent          internal/tools/agent.go, the tools of an agent run
--   Namespaces           internal/namespaces/record.go, the durable record of memory namespaces
--   Retention            internal/runtime/purge.go, and the times of the rounds of `RunPurge`
--   Retrieval            internal/retrieval/planner.go (`Planner` and `rrfFuse`)
--   Retrieval/Orderable  `ParseOrderedValue` of internal/store/store.go and `frontOrdered` of
--                        internal/retrieval/vault.go
--   Retrieval/Markdown   `chunkMarkdown` and `headingTitle` of internal/retrieval/vault.go
--   Telegram/Markdown    the syntax tree that internal/transport/telegram/format.go reads
--   Telegram/Render      `toTelegramHTML` and its visitor, internal/transport/telegram/format.go
--   Telegram/Blocks      `writeHTMLBlockText`, internal/transport/telegram/format.go
--   Telegram/Plain       `plainFromHTML`, internal/transport/telegram/format.go
--   Telegram/Updates     the updates, `Config` and `Adapter` of internal/transport/telegram/telegram.go
--   Telegram/Mentions    `isDirected`, `stripBotMentions`, `entityText` and `replyToBot`, same file
--   Telegram/Inbound     `toInbound`, `toCallbackInbound` and the allow-lists, same file
--   Telegram/Send        `sendTo` and `renderActions`, same file, and `ActionsAsText` of
--                        internal/transport/transport.go
--   Telegram/Dispatch    the dispatch of `Run`, `handleCallback` and `editToStatus`, same file
-- The other files prove, and the files named Tests run the code on concrete inputs.
--
-- How the code is read. State is passed explicitly: an operation returns its result and the new state.
-- What a mutex makes one critical section is one step, and interleavings are sequences of steps
-- (`Budget.Bounds.Steps`, `Pending.SingleUse.run`, `Acl.Overlap.serves`). `Check` of the gate holds no
-- lock: `check`, which the model of the handler calls, is a `Check` that no other write of the store comes
-- into. Turns end between the deletions of an erasure (`LongMemory.erase`). A store is a record of its operations over a type
-- of disks, and a failing call returns its error. A reading of the clock is an argument, a number of
-- nanoseconds, 0 the zero time; durations are integers. The meter's sums wrap at 64 bits (`Base.Int`),
-- and the theorems that need a sum to fit say so. Counters of messages and negative bounds on the
-- numbers of turns are natural numbers, 0 for every bound that is not positive. A string map is an
-- association list, whose order nothing observes. Every loop is structural recursion but one: the loop
-- over the pages of a tool server is on fuel, which is an argument.
--
-- Times of memory are nanoseconds after the Unix epoch. A float64 is a whole number of units of 2 to the
-- power -1074. A panic is an error value of its own (`Tools.ToolError`).
--
-- A Telegram message is a list of UTF-16 units where its entities count them (`Base.Utf16`). A slice or
-- an index out of range is `none`, or `panics`. The calls of the Bot API that a step makes are a list of
-- effects or of requests, and how each request ends is an argument. A bbolt transaction applies all its
-- writes or none.
--
-- Parameters are the agent run and the retrieval of the engine, its templates, the stores, the logs,
-- the backend of long-term memory, the tables of Go's unicode package and NFKC, encoding/json, the
-- parsing and conversion of numbers, the scores of rank fusion, the message catalogs, the Markdown
-- parser and the order in which it walks a tree, the HTML tokenizer, the tool servers and the Bot API.
-- The handler takes the engine's answer as a parameter too, and the dispatch takes the handler. Not
-- modelled: log lines and metrics, which no behaviour reads; the redaction of the token from errors;
-- the ACL and budget stores in bbolt, the files of the logs, the model clients and the configuration,
-- which are input and output; the graph store, which is queries of a third-party database; embeddings
-- and the keyword leg of the memory store; the definitions of the tools; the reading of files and of
-- frontmatter by retrieval's vault reader; a NaN or infinite key of an orderable field.
pub mod Base
pub mod Core
pub mod Pending
pub mod Acl
pub mod Memory
pub mod Budget
pub mod Runtime
pub mod LongMemory
pub mod Store
pub mod Telegram
pub mod Tools
pub mod Namespaces
pub mod Retention
pub mod Retrieval
pub mod Engine
