-- ===== src/Lib.antt =====
-- A model of LadderAirport, a panel that manages proxy nodes and an agent that runs on each node.
-- The panel keeps nodes, domains, certificates and jobs in SQLite and drives the agents; an agent
-- runs one sing-box instance and reports its logs and metrics.
--
-- Panel/Automation.antt is the persistent job queue of panel/internal/store/automation.go: the
-- table is the list of its rows in insertion order (Panel/Automation/Table.antt), and each method
-- of the store is a function from the table to a result. A failed call leaves the table as it was,
-- since the code rolls its transaction back. `enqueue`, `force_enqueue`, `claim`, `finish`,
-- `renew` and `get_job` are EnqueueAutomationJob, ForceEnqueueAutomationJob, ClaimAutomationJobs,
-- FinishAutomationJob, RenewAutomationJobLease and GetAutomationJob. Times are seconds, except the
-- clock of `claim` and `renew`, which is in nanoseconds as time.Time is; clocks and new ids are
-- arguments. Faults of the database other than its unique index are not modelled, nor are the
-- lists for the API.
--
-- Panel/Automation/Runner.antt is panel/internal/automation/runner.go: a job is dispatched to the
-- DNS and certificate services, which are parameters, while a heartbeat renews its lease. A pass
-- is cancelled between two jobs. runAsync starts the jobs in goroutines;
-- Panel/Automation/Interleave.antt covers it by any order of the calls of the store.
--
-- Agent/LogBuf.antt is agent/internal/control/logbuf.go: the ring buffer, the subscribers and the
-- line writer over bytes. Sequence numbers wrap at 2^64. The loop of Write is on fuel: one more
-- than the bytes that are pending, since each turn consumes a newline.
--
-- Agent/Runtime.antt is agent/internal/control/runtime_box.go with traffic_tracker.go: applying a
-- configuration with the restoration of the previous one, start, stop, and the traffic counters
-- kept over restarts. Agent/Runtime/Config.antt is the preparation of a configuration. sing-box,
-- frp, the JSON codec and current.json are the fields of `Host`; each may fail at any call, and so
-- may each write of traffic.json. Byte counters are int64 sums as bit patterns of 64 bits. An
-- instance is known by a number, and the model lists the instances that are up. The readings of
-- CPU and memory, ProbeOutbound and the Android rewriting are not modelled.
--
-- Base.antt gathers the library names, Base/Tests.antt the Boolean tests on numbers,
-- Base/Lists.antt lists over the native numbers and Base/Results.antt the result of a fallible
-- call. The modules named Tests hold runs on concrete data.
--
-- Panel/ProxyChain.antt is panel/internal/proxychain/service.go. Panel/ProxyChain/World.antt holds
-- the chains, nodes and snapshots of the store, with the methods of panel/internal/store/store.go
-- that the service calls, and what each agent runs; Plan.antt is effectiveChains, planConfigs and
-- Preview; Deploy.antt is Deploy, Disable, preflight, applyOrdered and rollback; Probe.antt is
-- ProbeLocked and diagnose. The network, the configuration builder and the validation of a chain
-- are the fields of `Network`, whose answers may differ at every call. Of the faults of the
-- database only those of SaveSnapshot and of UpdateProxyChain are modelled. planConfigs ranges
-- over a Go map, in any order; the model takes the nodes in the order in which they occur.
--
-- Panel/Auth.antt is the login, the lockout, the sessions and the logout of
-- panel/internal/api/auth.go. bcrypt and the JWT library are the fields of `Crypto`; reading and
-- writing the settings may fail. Requests are taken one after the other; times are nanoseconds.
--
-- Pkg/Semver.antt is pkg/semver/semver.go, with what it uses of the packages strings and strconv
-- in Pkg/Semver/Text.antt. Text is a list of bytes and is ASCII, so white space and letter case
-- are those of ASCII; an int of 64 bits is written as its distance from the least one, which keeps
-- its order.
--
-- Panel/Uplink.antt is a connection of panel/internal/uplinkhub/conn.go with the frames of
-- pkg/uplinkws/protocol.go: its calls, streams and shutdown. A payload and a report are texts; ids
-- wrap at 2^64. Panel/Uplink/Hub.antt is panel/internal/uplinkhub/hub.go, with a number for the
-- pointer to a connection; a registration and the closing of the connection that it displaces are
-- two steps, as the code releases its lock in between.
--
-- Panel/Subscription.antt is panel/internal/subscription/cache.go with the table external_sources
-- of panel/internal/store/store.go: the refresh of a source and the body that is served for it. A
-- refresh runs in one piece, so the coalescing of RefreshSource and the background loop are not in
-- it, and DetectAndParse is any function. A negative interval counts as 0.
--
-- Panel/Dns.antt is the managed domains: the rows of panel/internal/store/dns.go and the records
-- of panel/internal/dnsprovider/provider.go. Panel/Dns/Desired.antt, Panel/Dns/Record.antt,
-- Panel/Dns/Converge.antt and Panel/Dns/Service.antt are panel/internal/dnsreconcile/service.go,
-- Panel/Dns/Edit.antt the requests of panel/internal/api/handlers_dns.go. A provider is any
-- functions on a state of its own; the list of calls is kept beside it and the code does not read
-- it. Reconciliations and requests run one after the other, each in one piece.
--
-- Not modelled: the HTTP handlers, the SQL of the other tables, network clients, cryptography, the
-- web console and the scripts.
pub mod Base
pub mod Agent
pub mod Panel
pub mod Pkg
