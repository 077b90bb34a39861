-- ===== src/Lib.antt =====
-- Verification library of the Aries framework for JavaScript (src/), an agent that speaks DIDComm.
--
-- The program. An agent holds a wallet and keeps records of connections, credentials and proofs in
-- it. A service for each protocol (src/modules) turns received messages and the user's calls into
-- changes of records, answers and `stateChanged` events; repositories (src/storage) read and write
-- the records in the wallet; a mediator (src/modules/routing) keeps routes and queues for agents
-- that cannot be reached. A service method is an `async` function that may throw.
--
-- How it is modelled. A method is a function in `Exec S A = S → Result A × S` (Exec.antt): the
-- state comes back beside an error too, since what was written before a throw stays written. A
-- service that emits events works on `Emitting W E`: the wallet's state and the events so far.
-- Methods keep the names of the source in snake_case (`processRequest` is `process_request`), a
-- test that throws is `require` or `or_throw`, `try`/`catch` is `try_catch`, and a promise that
-- nobody awaits is `unawaited`. What `uuid()` and the clock return comes in as an argument of type
-- `Fresh`.
--
-- The files.
--   Prelude      shared names, array methods, optional values
--   Exec         methods with state and errors, rules for invariants, inversion of what returned
--   Storage      src/storage: IndyStorageService, Repository, InMemoryMessageRepository; the
--                contract of a repository (Contracts, Laws) and what it finds after a change
--                (Updates)
--   Message      src/agent/BaseMessage.ts and src/decorators: ids, threads, timing, transport
--   Signature    src/decorators/signature and src/utils/timestamp.ts
--   Attachment   src/decorators/attachment
--   Connections  src/modules/connections: DID documents, records, ConnectionService, the handlers;
--                the protocol's diagram (Protocol), sequences of calls (Calls), Outcomes,
--                two agents that connect (Requesting, Handshake), ConnectionsModule (Module,
--                Waiting), invitations as urls (Invitation, with src/helpers.ts), DID documents as
--                JSON (Documents)
--   Agent        src/agent: AgentConfig, the inbound context, createOutboundMessage,
--                EnvelopeService and MessageSender (Envelope), MessageReceiver and
--                Dispatcher (Receiver, Authenticity), how the modules send (Sending), init of
--                an agent (Assembly, Readiness), and the handlers of the modules (Registration)
--   Credentials  src/modules/credentials: records, CredentialService (Service, Receiving), the
--                encoding of values (Values, Preview), the diagram (Transitions, Protocol, Calls),
--                Threads; a holder and an issuer (Exchange, Issuance); CredentialsModule
--                (Module, Undelivered)
--   Proofs       src/modules/proofs: records, ProofService (Service, Receiving), verification of
--                proofs (Verify), the diagram (Transitions, Protocol, Calls), requests made from
--                proposals (Request, Referents), the choice of credentials (Selection,
--                Offered), a prover and a verifier (Presenting, Verdict),
--                filters (Filter), ProofsModule (Module, Accepted)
--   Routing      src/modules/routing: ProviderRoutingService (Provider, Ownership) and
--                MessagePickupService (Pickup, Queues), the mediator's side, and the
--                services of an edge agent (Provisioning) with RoutingModule (Module, Inbound)
--   BasicMessages  src/modules/basic-messages: the service, its handler and its module
--   IndyError    src/utils/indyError.ts, by numbers, and on errors as they are thrown (Raw, Codes)
--   Identifiers  src/utils/did.ts
--   Logger       src/logger
--   Samples      samples/mediator.ts: its transporters and two of its routes (Mediator), delivery
--                to a recipient (Delivery), and the link of an invitation (Links)
--   Wallet       src/wallet/IndyWallet.ts: the methods; those on records (Records), the loop
--                of the record search (Search), and init (Opening)
--   Ledger       src/modules/ledger: LedgerService and LedgerModule, with the author agreement
--                (Agreement) and what is written (Writing)
--   Tests        the theorems at concrete inputs
--
-- Parameters. The indy-sdk (`IndySdk`, `RecordSdk`, `LedgerSdk`), JSON, base64, sha256, the
-- reading of numbers from text, class-validator and class-transformer are parameters, records of
-- functions. The services take the wallet and the ledger as records too (`WalletRecords`,
-- `WalletKeys`, `CredentialDeps`, `ProofTools`), whose operations IndyWallet and LedgerService
-- pass on to the sdk, and the modules take a `Sender`, of which `message_sender` is the source's.
-- Theorems that rely on documented behaviour say so in a hypothesis (`IsRecordStore`, `IsCodec`,
-- `IsFaithful`, `IsRepository`, `IsPeer`, `IsSearch`, `IsReadable`, `Reads`, `KeepsIds`), and Tests
-- has instances of each. `IsRecordStore` has tags added to those of a record, as IndyWallet does, so
-- that an update in the contract `IsRepository` replaces a record where it takes no tag away. What
-- the runtime does with the promise that Repository.save does not await is the parameter `start` of
-- `repository`; `Settles` says that what is started has ended before the next call of the wallet.
--
-- Bounds. The loop of the record search ends by a throw only, so it has fuel, and Wallet/Search
-- says how much is enough; all other loops run over lists. `timestamp` shifts a number of up to 64
-- bits by bytes, written as division and remainder by 256; `isInt32` compares with the two bounds.
--
-- Not modelled: the constructors that only store their arguments; the wrappers of Buffer, JSON,
-- class-transformer and uuid, which are parameters; the mixins, which compose classes; the routes
-- of the mediator sample that return what the modules hold, and the other samples.
pub mod Prelude
pub mod Exec
pub mod Storage
pub mod Message
pub mod Connections
pub mod Agent
pub mod Signature
pub mod Attachment
pub mod Credentials
pub mod Proofs
pub mod Routing
pub mod Samples
pub mod Tests
pub mod BasicMessages
pub mod IndyError
pub mod Identifiers
pub mod Logger
pub mod Wallet
pub mod Ledger
