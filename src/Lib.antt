-- ===== src/Lib.antt =====
-- opencord-server: a chat and collaboration server. HTTP controllers call domain services
-- (src/domain), which check their input and work on stores through traits; each store has an
-- in-memory and a PostgreSQL implementation (src/repositories). Background work goes through event
-- envelopes (src/events) and jobs (src/jobs).
--
-- What models which part:
--   Permission   src/domain/permission.rs and src/repositories/permission_memory.rs: the bits and
--                names (Permission), the evaluation of overrides (Permission.Evaluate), the checks
--                on input (Permission.Input), the trait PermissionStore as a record of operations
--                (Permission.Store), its in-memory implementation (Permission.Memory) and
--                PermissionService over any store (Permission.Service).
--   RateLimit    src/domain/rate_limit.rs, and src/http/rate_limit.rs in RateLimit.Headers.
--   Organization src/domain/organization.rs and src/repositories/organization_memory.rs: input checks
--                (Organization.Input), host names (Organization.Hostname), the trait
--                OrganizationStore (Organization.Store), its in-memory implementation
--                (Organization.Memory, and Organization.Domain for custom domains and webhook
--                policies) and OrganizationService over any store (Organization.Service).
--   Space        src/domain/space.rs and src/repositories/space_memory.rs: input checks (Space,
--                Space.Slug), the trait SpaceStore (Space.Store), its in-memory implementation
--                (Space.Memory) and SpaceService over any store (Space.Service).
--   Meeting      src/domain/meeting.rs, src/domain/reminder.rs and src/repositories/meeting_memory.rs:
--                input checks (Meeting.Input), what the service prepares (Meeting.Draft) and does
--                (Meeting.Service) over any store (Meeting.Store), the in-memory store
--                (Meeting.Memory) and the reminder worker (Meeting.Worker).
--   Channel      src/domain/channel.rs and src/repositories/channel_memory.rs: input checks (Channel),
--                the trait ChannelStore (Channel.Store), its in-memory implementation
--                (Channel.Memory) and ChannelService over any store (Channel.Service).
--   Message      src/domain/message.rs and src/repositories/message_memory.rs: checks on contents,
--                webhook names and mentions (Message.Content), on the parts of an embed
--                (Message.Embed) and on embeds (Message.Parts), the trait MessageStore
--                (Message.Store), its in-memory implementation (Message.Memory) and MessageService
--                over any store (Message.Service).
--   Attachment   src/domain/attachment.rs and src/repositories/attachment_memory.rs, likewise.
--   Audit        src/domain/audit.rs and src/repositories/audit_memory.rs, likewise.
--   Command      src/domain/command.rs and src/repositories/command_memory.rs, likewise: application
--                commands and their interactions.
--   Retention    src/domain/retention.rs and src/repositories/retention_memory.rs: policies, their
--                store and service, and the worker (Retention.Worker), whose state is that of a
--                retention, a message, an attachment and an audit store.
--   Gateway      src/domain/compat_gateway.rs and src/repositories/compat_gateway_memory.rs.
--   Events       src/events/mod.rs.
--   Jobs         src/jobs/mod.rs.
--   Base         what these share: texts, maps, results, actions on a locked state, bits.
-- The further modules of a part hold its proofs, and Tests runs it on concrete inputs.
-- Functions keep their names; a `_body` is the part of a function under the lock, and a handler
-- that the code writes as one match may have a helper for its arms.
--
-- How the code is read:
--   a text is the list of its code points and `len` counts UTF-8 bytes; a UUID is a number;
--   HashMap is an association list, whose order no theorem depends on;
--   a Mutex carries its poison flag, and a lock that fails gives the store's error;
--   code that changes a state is an action: from a state to a result and the state after it, also
--   where the result is an error;
--   u64 words are native numbers below 2 ^ 64, and `!` is the complement on 64 bits; the counts of
--   the rate limiter stay at or below its limit, so they never wrap; i32 and i64 values are only
--   compared, so they are integers;
--   clocks and fresh identifiers are arguments; chrono's reading, comparing and printing of times is
--   a parameter (Meeting.Crates, Base.Time), as are dispatchers and handlers, which act on a world
--   of their own;
--   a JSON value is a tree (Base.Json), whose objects keep their members in the order of their keys,
--   as serde_json does without its feature preserve_order; the payload of an event envelope is a
--   type parameter;
--   the number of bytes that an organization stores is summed without a bound, where the code has
--   an i64: sizes are at most 10 MiB, so it takes 2 ^ 39 files to leave it.
-- Every loop is structural recursion on a list, so no definition has fuel.
--
-- Not modelled: the PostgreSQL and Scylla stores (SQL and CQL run elsewhere), controllers, routes,
-- serde models, start-up and configuration, and the domain services that no module above names.
pub mod Base
pub mod Permission
pub mod RateLimit
pub mod Gateway
pub mod Events
pub mod Jobs
pub mod Space
pub mod Meeting
pub mod Organization
pub mod Command
pub mod Attachment
pub mod Audit
pub mod Channel
pub mod Message
pub mod Retention
