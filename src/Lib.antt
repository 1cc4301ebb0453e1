-- ===== src/Lib.antt =====
-- quptime: a model of qu, the quorum-based uptime monitor.
--
-- Several nodes probe the same endpoints. They exchange heartbeats and elect a master; the master
-- alone changes the shared configuration, cluster.yaml, and pushes it to the others; each probe
-- result goes to the master, whose aggregator decides whether a check is up or down; and a change
-- of that decision goes out through the alert channels. Nodes talk over mutual TLS and only with
-- nodes whose fingerprint is in their trust store.
--
-- Where things are:
-- - Config: internal/config/cluster.go. Types has the data; Cluster has Snapshot, Mutate, Replace,
--   Save, LoadClusterConfig, QuorumSize, FindAlert, FindEnrollment, FindEnrollmentByID and
--   EffectiveAlertsFor, and below it are versions and failing writes (Versions), replicas
--   (Convergence), the effective alerts (Attach, Effective) and how often a node adopts a snapshot
--   (Settling). Node is internal/config/node.go, Paths is internal/config/paths.go.
-- - Quorum: internal/quorum/manager.go. Manager has the state, markLive, LiveSet, HasQuorum and
--   recomputeMaster; Node has the handlers that also touch the configuration: HandleHeartbeat, tick
--   with the answers of its heartbeats, maybeNotifyVersion and Start. Node.Runs has the runs of one
--   node as a step relation.
-- - Replicate: internal/replicate/replicator.go. Mutation has the mutations of applyLocally;
--   Replicator has LocalMutate, HandleProposeMutation, HandleApplyClusterCfg, HandleGetClusterCfg,
--   PullFrom, broadcast and addressOf. The messages are those of internal/transport/messages.go.
--   Network is the runs of several nodes that exchange configurations.
-- - Checks: internal/checks/aggregator.go. Aggregator has Submit, evaluate, SnapshotFor and
--   freshWindowFor, and below it the verdict as a function of the map of results up to its order
--   (Ballot); Scheduler is reconcile and sameCheck of internal/checks/scheduler.go, and
--   EffectiveResolvers of internal/checks/resolver.go; Probe is Run of internal/checks/probe.go with
--   the five probes.
-- - Alerts: internal/alerts/dispatcher.go, and RenderFor and transitionVerb of
--   internal/alerts/message.go, in Dispatcher; Delivery has what is sent, TestAlert is Test.
-- - Transport: Frame is internal/transport/frame.go, Trust is internal/trust/store.go, Server is
--   handleConn of internal/transport/rpc.go, and Client is the client of that file with its pool,
--   and the verifier of internal/transport/tls.go.
-- - Daemon: Enroll is handleEnroll and its helpers of internal/daemon/handlers.go, and
--   syncTrustFromCluster of internal/daemon/daemon.go; Status is the status report of handlers.go;
--   Tokens and Control are the tokens, enrollCreate and the listings of
--   internal/daemon/control.go, Dispatch its requests; Watcher is internal/daemon/watcher.go; New is
--   New of daemon.go; Results is sink.Submit with the transition callback of that file, and the
--   ReportResult handler of handlers.go; Handlers is registerHandlers of that file, whose table is the
--   argument of Transport.Server.
-- - Cli: Bootstrap is bootstrapNode of internal/cli/init.go and seedJoinerClusterYaml of
--   internal/cli/enroll.go; Join is runEnrollJoin of that file; Update is
--   internal/cli/update.go; Checks and Alerts are what the commands of internal/cli/check.go and
--   internal/cli/alert.go submit.
-- - Prelude has the shared lists, maps, string order and sorting, Samples the data of the tests.
--
-- How the code is read. An operation takes the state and returns the state after it, with what it
-- returns, sends or calls. A mutex makes an operation one step, so locks are left out; the goroutines
-- of tick and broadcast are the messages that they send, and an answer is a step of its own. A call
-- reads the clock once. A Go map is a list of pairs in one order in which it may be ranged over.
-- Times and the durations of the quorum manager are natural numbers of nanoseconds; the version and
-- the term are uint64 values and wrap at 2 ^ 64; the fresh window is an int64 product and wraps.
-- Every loop of the modelled code runs over a slice, a map or a header and is structural recursion,
-- so there is no fuel.
--
-- Arguments of the model, for code of other packages: the YAML, JSON, base64 and hex codecs, the
-- environment, the read and the write of a file and the end of each system call,
-- reflect.DeepEqual, the random source, SHA-256, the parser of certificates, text/template, the
-- channels of the alerts, a dial, what the probes and the updates get from the network, the parser
-- of flags, and the exchange of frames, the answers of peers, and, for Transport.Server by itself,
-- the handlers.
--
-- Not modelled: the goroutines that run the probes (internal/checks), the goroutines of the daemon
-- (Start and Stop of internal/daemon/daemon.go), the rest of the TLS set-up (internal/transport),
-- keys (internal/crypto), the alert senders and texts (internal/alerts), and the other user
-- interfaces (internal/cli, internal/tui). They are network and file input and output, calls of
-- the Go libraries, or views of the state that is modelled here.
pub mod Prelude
pub mod Samples
pub mod Config
pub mod Quorum
pub mod Replicate
pub mod Checks
pub mod Alerts
pub mod Transport
pub mod Daemon
pub mod Cli
