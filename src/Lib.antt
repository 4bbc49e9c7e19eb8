-- ===== src/Lib.antt =====
-- A model of the orchestrator of a multi-tenant agent platform: one pod for each tenant, started
-- when a message arrives and stopped when the tenant is idle.
--
-- The parts, and the files that model them:
--  - internal/registry/registry.go and mock.go: Registry (the record, the statuses and the `Client`
--    interface), Registry/Laws (what the interface promises), Registry/Mock (the client over a map),
--    Registry/Dynamo (`DynamoClient`, over the calls of the AWS SDK) and
--    Registry/Passes (how a loop over a listing changes the registry).
--  - internal/lock/lock.go: Lock (`RedisLocker` and `MockLocker`), Lock/Laws, Lock/Keeps and
--    Lock/Exclusion.
--  - internal/k8s/client.go: Kube/Objects, Kube/Pods, Kube/Volumes and Kube/WarmPool; Kube/Laws has
--    what the proofs assume of the API server.
--  - internal/telegram/webhook.go: Telegram, and Telegram/Slashes for the URL that it registers.
--  - internal/api/handler.go: Api (the handler's state and the responses), Api/Tenants (the handlers
--    of `/tenants`), Api/Wake (`Wake`, `wakeOrGet` and `pollUntilRunning`), Api/Wake/Workers (wakes
--    that run at the same time, as a step relation) and Api/Routes (`Router`).
--  - internal/warmpool/warmpool.go, internal/lifecycle/lifecycle.go and
--    internal/reconciler/reconciler.go: WarmPool, Lifecycle and Reconciler, over the loop of Ticker.
--  - cmd/router/main.go: Router, with Router/Steps (the changes of the world that an update can make),
--    Router/Cache, Router/Panics, Router/Orchestrator (the two programs together), Router/Registration
--    (`RegisterWebhook`) and Router/Entry (the environment and the routes).
--  - cmd/orchestrator/main.go: Orchestrator, with Orchestrator/Wiring.
--  - cmd/ztm and internal/cli: Cli/Types, Cli/Kubectl (the arguments of kubectl) and
--    Cli/Kubectl/Reading (a reader of them), Cli/Client (`KubectlClient`), Cli/Mock (`MockClient`),
--    Cli/Output (the lines that a command writes), Cli/Commands (the commands) and Cli/Main (flags,
--    wiring and exit code).
--  - Base has what all share, Services the clock, Redis and HTTP, and Examples a small world in which
--    the theorems are applied.
--
-- The handlers, the idle check and the reconciler share the registry, the Kubernetes client and the
-- Redis. Each is an action on a world `W` that is a parameter: an action returns a value and the next
-- world. A record of actions stands for what is outside the repository, and for the interfaces
-- `registry.Client` and `lock.Locker`. A theorem names what it needs of them: the laws of an
-- interface, that an action leaves a view of the world alone (`Frames`), or documented behaviour of
-- Redis, of the API server or of the clock.
--
-- Among the laws of the registry's interface is that a write that fails changes nothing. The client
-- over a map keeps it; DynamoDB may have applied a write that it answers with a server error, so a
-- theorem that takes these laws says nothing of such a reply. A call of Redis that fails may have been
-- carried out.
--
-- Names are the source's, in snake case: `wakeOrGet` is `wake_or_get`. Errors are values of
-- `Result`. An instant or a duration is a number of nanoseconds, an int64 its bit pattern, and a
-- product of durations wraps around. The loop of `pollUntilRunning` runs on fuel: the lock's time to
-- live divided by the two seconds between the rounds, and two more, which is enough as each round
-- pauses for two seconds. A loop over ticks takes the list of the signals that it receives.
--
-- A command of ztm returns the lines that it writes and its error; cobra's reading of the command
-- line is a parameter, a function from the default flags to the flags. A worker of Api/Wake/Workers
-- provisions in one step, and any action that leaves the locks alone may come between two steps.
--
-- Not modelled: the signal handling and the shutdown of the servers, the leader election inside
-- client-go, the texts of JSON and of log lines, and the matching of paths to routes.
pub mod Base
pub mod Services
pub mod Registry
pub mod Lock
pub mod Kube
pub mod Telegram
pub mod Api
pub mod Ticker
pub mod WarmPool
pub mod Lifecycle
pub mod Reconciler
pub mod Orchestrator
pub mod Router
pub mod Cli
pub mod Examples
