-- ===== src/Lib.antt =====
-- A verification library for the API server of kudeploy (apps/server/src).
--
-- The server answers GraphQL requests for the members of a workspace. Projects, services, volumes,
-- registry credentials and deployments are not in its database: they are resources of a Kubernetes
-- cluster, which the server marks by labels and reads back. What belongs to a workspace is decided
-- by those labels and by the prefix of a resource's name. Lists of resources become pages through
-- one connection manager.
--
-- Files and the code they model:
--   Prelude: shared names; strings as lists of UTF-16 code units (Prelude/Texts), integers
--     (Prelude/Int), asynchronous methods that may throw (Prelude/Exec).
--   Connection: lib/kubernetes-graphql-connection/kubernetes-connection.manager.ts. Value: what
--     `unknown` stands for; Filter, Sort, Page: the private methods; Manager: `find`.
--   Kubernetes: app/kubernetes/resource-names.ts (Names), and what the services share: the client
--     library (Api), labels of project.service.ts (Labels), dates, and a cluster in memory.
--   Ability: common/modules/utils/build-workspace-member-permission-ability.util.ts; Deciding: who
--     may delete or update a workspace. The library that reads the rules is an argument there.
--   Project: app/project/project.service.ts.
--   WorkspaceMember: app/workspace-member/workspace-member.service.ts (Service), the mutations of
--     workspace-member.resolver.ts and createWorkspace of workspace.service.ts (Resolver), the table
--     they share (Database), and what holds of it (Valid, Lifecycle, Invitations, Updates).
--   Volume: app/volume/volume.service.ts; Size: toVolumeSize.
--   RegistryCredential: app/registry-credential/registry-credential.service.ts; Docker: what a secret
--     holds. JSON and base64 are the record Encoding.
--   Service: app/service/service.service.ts; Entity: the resource, service.object.ts and the inputs;
--     Building: buildServiceResource; Reading: toService; Normal, Kept, Updates, Lifecycle: what
--     holds of them.
--   ApiKey: app/api-key/api-key.service.ts; Format: the text of a key; Validation: presenting it.
--   Deployment: app/deployment/deployment.service.ts; Entity: the resource and deployment.object.ts;
--     Times: toDate and toUpdatedAt.
--   Promql: app/kubernetes-metrics/promql.ts; Quoting: readers of its strings and patterns.
--   Logsql: app/kubernetes-logs/logsql.ts; Reading: a reader of its filters.
--   Logs: app/kubernetes-logs, the service; Order: service-log-order.ts and the laws of its
--     comparator; Times: the bounds of a query in time; Sorted, Pages, Walk: pages and cursors;
--     Answers: what a request is answered with.
--   Terminal: app/service-terminal/service-terminal.gateway.ts; State: sessions and calls; Start:
--     handleStart; Events: what comes in later; Steps: what may happen, and in which order; Valid:
--     stored sessions; Owned, Solo, Alone: owners of web sockets; Coherent: what is
--     closed; Safe: input and shells; Guard: service-terminal.guard.ts;
--     Managers: who it lets through.
--   Domain: app/domain/domain.service.ts; Verification: when a domain is verified.
--
-- How code becomes definitions. A class method is a function of the same name in snake case, whose
-- first arguments are what the class gets by injection. An `async` method is an `Exec W A`: it
-- takes the state of the outside world and returns a result or a failure with the new state, so
-- what was done before a throw stays done. `undefined` and `null` are `none`. A plain object with
-- computed keys is an association list. Dates are their `getTime`, with `none` for an invalid one.
--
-- What is a parameter. The Kubernetes client library is the record `ResourceApi`, one for each kind
-- of resource; `IsStore` names what the theorems rely on, and Kubernetes/Memory has a cluster in
-- memory for which it holds. The reading of dates, the generator of ids (Sonyflake) and the cursor
-- class of @nest-boot/graphql-connection are fields of `Outside` and `Runtime`.
-- The entity manager of MikroORM is the record `Members`, `Keys` or `Domains` of the component,
-- with the reads and writes that its service makes; `IsDatabase` names what is relied on of the
-- members' table, and WorkspaceMember/Table has one for which it holds. A write may be refused
-- there, as by a unique index. Random bytes, the cipher, the TXT resolver and the clock are fields
-- too, and `findService`, which deployments ask for their service, is an argument of theirs.
-- The client of the log store, whose calls may throw, and the JSON and base64 of cursors are the
-- fields of `LogsOutside`.
-- The web sockets, the shells, the timers and the lookups of terminals answer in steps that come in
-- any order (Terminal/Steps); what the guard of terminals asks for is `GuardOutside`.
--
-- Bounds and fuel. Numbers of the program are integers; fractions do not occur in the modelled
-- fields. Decimal printing takes one round more than the number, which is enough since each round
-- divides by ten. The client of Connection/Page/Walk has one round more than there are items: each
-- page but the last holds at least one item.
--
-- Not modelled: the React client, the Go controller, GraphQL modules and the resolvers that only
-- hand the request on, database migrations, the HTTP clients of the log and the metrics store, the
-- metrics service, and members that JavaScript objects inherit.
mod Prelude
pub mod Ability
pub mod Connection
pub mod Kubernetes
pub mod Project
pub mod ApiKey
pub mod Deployment
pub mod Domain
pub mod Logs
pub mod Logsql
pub mod Promql
pub mod RegistryCredential
pub mod Service
pub mod Terminal
pub mod Volume
pub mod WorkspaceMember
