-- ===== src/Lib.antt =====
-- Holo Web Conductor runs Holochain applications in a browser extension. The extension keeps an
-- agent's source chain, answers the host functions of an application's WebAssembly, and reaches the
-- DHT through a linker service over HTTP and a websocket; a client library in the page watches the
-- connection. This library is about the parts of packages/core that write an agent's actions to its
-- chain, turn them into DHT operations, bring these to the linker, keep the connection to it, and
-- cache what was read from it; about the part of packages/client that keeps the state of the page's
-- connection; and about the extension's permissions, requests for them, guards, lock and contexts of
-- installed apps.
--
-- Chain: from the call of a zome function to the chain of its cell.
--   Chain/Types          packages/core/src/storage/types.ts: actions, entries, links, heads.
--   Chain/Storage        `DirectSQLiteStorage` of packages/extension/src/offscreen/ribosome-worker.ts
--                        over packages/core/src/storage/sqlite-schema.ts: tables are lists of rows,
--                        a statement of SQL is a function on them (Tables, Queries), and a
--                        transaction keeps the tables that a ROLLBACK brings back.
--   Chain/Hash           packages/core/src/hash/index.ts: hashes of actions and entries, over the
--                        packages that hash, encode and sign, which are the fields of `Crypto`.
--   Chain/Genesis        packages/core/src/storage/genesis.ts: `initializeGenesis`.
--   Chain/HostFunctions  packages/core/src/ribosome/host-fn: `create`, `update`, `deleteEntry`,
--                        `createLink`, `deleteLink`. Each adds one action after the head and pushes
--                        a record, and for links operations on the cache, to the context of the call
--                        (packages/core/src/ribosome/call-context.ts).
--   Chain/Activity       packages/core/src/ribosome/host-fn/query.ts and get_agent_activity.ts: what
--                        a zome is told of its own chain and of others.
--   Chain/Records        packages/core/src/dht/record-converter.ts: to the records of Dht.
--   Chain/Validation     packages/core/src/ribosome/validate.ts and
--                        packages/core/src/dht/validation-op.ts: `invokeInlineValidation`. The
--                        validate callback of a zome is a parameter.
--   Chain/Call           packages/core/src/ribosome/index.ts, `callZome`, and
--                        packages/core/src/ribosome/host-fn/call.ts, `call`. The code of a zome is a
--                        tree of what it asks of its host (`Guest`), so that a statement about all
--                        trees is one about all zomes.
--   Chain/Linked says what a linked chain is, for the proofs.
--   `callZome` writes genesis, begins a transaction, runs the zome with the host functions on the
--   tables, validates the records, commits, and then changes the cache of Network.
--
-- Dht: from a record to the linker.
--   Dht/OpTypes    packages/core/src/dht/dht-op-types.ts: actions, operations, which types of
--                  operation an action has (`actionToOpTypes`).
--   Dht/Produce    packages/core/src/dht/produce-ops.ts: `produceOpsFromRecord`,
--                  `produceOpLitesFromRecord`, `computeOpBasis`. A function that throws in the
--                  program gives a value of its own here (`BasisResult`).
--   Dht/Tracker    packages/core/src/dht/publish-tracker.ts: the table of pending publishes, which
--                  IndexedDB holds under the rows' ids. A table is a list of keys with rows; each
--                  method of `PublishTracker` is a function from the table to the table and to what
--                  the method returns.
--   Dht/Publish    packages/core/src/dht/publish-service.ts: `batchOpsBySize`, `publishBatch`,
--                  `processQueue`, `retryFailed`. The answers of the linker, the clock at each
--                  update and the serialised operations are arguments, so what is proved holds
--                  for any of them.
--   Dht/Retry      packages/core/src/dht/publish-retry.ts: `retryPublishesAfterReconnect`. A queue
--                  that is begun while another is at work ends at once, as in `processQueue`.
--   The service calls the tracker alone to change a row, and the tracker calls the production of
--   operations when a record is queued.
--
-- Network: what was read from the DHT.
--   Network/Types          packages/core/src/network/types.ts: records and links, as far as the
--                          caches read them.
--   Network/Cache/Lru      packages/core/src/network/cache.ts, `LRULinkCache` and, with another type
--                          of value, `LRULinkDetailsCache`.
--   Network/Cache/Records  the same file, `LRURecordCache`: records with aliases.
--   Network/Cache/Ttl      the same file, `TTLCache`: entries with a time to live.
--   Network/Cache/NetworkCache  the same file, `NetworkCache`: the four caches and the changes that
--                          the host functions make to cached links when an agent creates or deletes
--                          one. The text of a hash (`encodeHashToBase64`) is a parameter.
--   Network/WebSocket      packages/core/src/network/websocket-service.ts,
--                          `WebSocketNetworkService`. A handler is a function from the service to
--                          the service and to what it does outside: Messages has the messages and
--                          the outputs, Service the methods, Handlers what is done on events, and
--                          Steps any sequence of calls, messages, timers and answers of callbacks,
--                          with what can come when. The time of a timer is not counted: it may fire
--                          at any moment while it is set.
--   Network/Cascade        packages/core/src/network/cascade.ts, `Cascade`: the storage and the
--                          network are records of functions (Cascade/Sources), the cache is
--                          NetworkCache; Cascade/Fetch has `fetchRecord`, `fetchLinks` and
--                          `fetchDetails`, Cascade/Values `normalizeByteArrays`.
--   Network/AgentInfo      packages/core/src/network/agent-info-validator.ts: which agent infos of
--                          the linker are signed, and the text that is.
--
--
-- Client: the connection of a web page.
--   Client/Connection/Types      packages/client/src/connection/types.ts.
--   Client/Connection/Monitor    packages/client/src/connection/monitor.ts, `ConnectionMonitor`. A
--                                method is a function from the monitor to the monitor and to the
--                                events that it emits; Monitor/Runs runs any sequence of calls.
--   Client/Connection/Reconnect  packages/client/src/connection/reconnect.ts,
--                                `ReconnectionManager`, as a relation of steps: a call of
--                                `reconnect` is cut where it awaits its timer and `reconnectFn`, and
--                                other calls may come between.
--
-- Extension: what the background keeps.
--   Extension/Permissions  packages/extension/src/lib/permissions.ts, `PermissionManager`, with the
--                          browser's storage as part of the state; an exception is an outcome.
--   Extension/Auth         packages/extension/src/lib/auth-manager.ts, `AuthManager`: the requests
--                          that wait for the user's answer, with their callbacks.
--   Extension/Lock         packages/extension/src/lib/lair-lock.ts, `LairLock`: the passphrase that
--                          guards the key store (Calls: what each call does; Keys: when a key
--                          is held; Attempts: guesses one after the other). PBKDF2 is a parameter.
--   Extension/Contexts     packages/extension/src/lib/happ-context-storage.ts, whose class
--                          `HappContextStorage` keeps the contexts of the installed apps in a
--                          database with a unique index by domain and copies of them in memory
--                          (Storage), and packages/extension/src/lib/happ-context-manager.ts, whose
--                          class `HappContextManager` installs (Manager, Installing), enables,
--                          recovers and removes them (Lifecycle). The other files are proofs: what
--                          is seen of a context (Seen), rows and memory (Rows, Consistent, Answers,
--                          Domains), what each method makes of the rows (Changes, Methods, Removing,
--                          Unpacking, Founding, Adding, Granting), and runs of calls (Runs, Kept,
--                          Safe). The manager asks Permissions. Unpacking a bundle and hashing a DNA
--                          are parameters.
--   Extension/Sender       packages/extension/src/lib/sender-validation.ts: the guards on who sent
--                          a message.
--
-- Common: lists, texts as lists of codes, and the map of JavaScript with its order of insertion
-- (Common/JsMap), on which the caches and the table stand.
--
-- Loops and fuel. The loop of `processQueue` runs on fuel. Each round either stops or costs some
-- operation of the table a try, and an operation has at most one try more than the retry limit
-- before it is failed for good, so a fuel above the rows times that number is enough
-- (Dht/Publish/Ending). The eviction loops of the caches run on the number of entries, since each
-- round takes one away. All other loops are structural. A fuel that runs out gives `none`.
--
-- What is left out. The queue loop is modelled without other tasks between its awaits: an operation
-- that is queued while it runs is not seen. Failing IndexedDB transactions, the text form of rows,
-- msgpack and base64, the requests themselves, the listeners of the monitor, logging and statistics
-- are not modelled. Where a statement about the websocket service needs that no caller connects while
-- a reconnect timer is set, that is a hypothesis of its own (`Apart`): the service does not see to
-- it. The lock is called by one caller after the other: attempts to unlock it that overlap, which
-- the program does not keep apart, are not modelled. Calls of zome functions come one after the other, since the worker takes them so. What the
-- host functions that only read add to the network cache, signals, the compiling and instantiating
-- of WebAssembly, entry definitions and measurements are left out, as are the storage on IndexedDB,
-- which tests use, and the extension's pages and background script, which are mostly calls of the
-- browser. The key store is cryptography by libsodium. The recovery of a chain, which rests on the
-- signatures and hashes of packages, and the client around its connection, which passes calls and
-- signals on, are left out.
pub mod Chain
pub mod Client
pub mod Common
pub mod Dht
pub mod Extension
pub mod Network
