-- ===== src/Lib.antt =====
-- hole-balancer, a DNS forwarder that spreads queries over several Pi-hole servers.
--
-- Parts of the program. internal/pool keeps the upstream servers, each with one or more network
-- paths (endpoints), judges the health of every path from probes and queries, and plans which paths
-- a query tries. internal/config holds the configuration that the pool is built from.
-- internal/proxy forwards a query along the plan, reports every attempt to the pool, turns to the
-- public resolvers of internal/fallback when nothing answers, and files a record with
-- internal/stats. internal/health probes every path. cmd/hole-balancer ties the parts together: a
-- change of health counts in internal/metrics and tells the fallback tracker whether all are down.
-- internal/control changes the running server and its file, and internal/admin serves its changes and
-- its views over HTTP. internal/dnsclient exchanges one message with a server.
--
-- Files. Base and its children: shared names, lists over the native numbers, counting, integers.
-- Config/Types: the types of upstreams in internal/config/config.go, and the strategy names.
-- Config/Document: the whole document and Default. Config/Validate: normaliseAddr, PrepareUpstream
-- and Validate, with the functions of the Go library on texts and addresses in one argument.
-- Pool/Types: Endpoint, Upstream and Pool of internal/pool/pool.go; a Go pointer is a number, and
-- the fields `upstream` and `endpoint` of the pool are the heap. Pool/Members: New, buildUpstream,
-- Add, Remove, SetStrategy, Lookup, HealthyUpstreams. Pool/Plan: Plan, orderLocked, weightedPick,
-- effectiveLatency. Pool/Health: record, ReportProbe, ReportQuery, SetInitial. Pool/History: these
-- calls as a step relation. Pool/Status: the view of the pool. The modules below
-- each prove what they are named for, and the modules named Examples hold tests.
-- Fallback/Tracker and Fallback/Resolver: Tracker and Resolver of internal/fallback/fallback.go, the
-- tracker's calls with their time, the exchanges of Resolve as an argument. Dnsmsg/Header,
-- Dnsmsg/Names and Dnsmsg/Message: ParseHeader and ValidateResponse, parseName and packName,
-- BuildQuery, ParseQuestion and ErrorResponse of internal/dnsmsg/dnsmsg.go.
-- Stats: the collector of internal/stats/stats.go, its tallies and its two rings of buckets.
-- Stats/Snapshot: Snapshot and counts. Base/Texts and Base/Sorting: the order of texts, and sort.Slice.
-- Control: AddUpstream, RemoveUpstream, SetStrategy, SetFallback and SetDrained of
-- internal/control/control.go, each with the save of the file and its rollback.
-- Dnsmsg/Codes: the mnemonics of response codes and record types. Metrics: the counters, the
-- histogram and the label text of internal/metrics/metrics.go.
-- System: the state of the whole process and the callbacks that cmd/hole-balancer/main.go installs.
-- Checker: probe, Bootstrap and Sweep of internal/health/health.go, over that state. Proxy: Resolve,
-- forward, resolveViaFallback and the slots of internal/proxy/proxy.go, over that state, with what
-- a query meets outside the process (exchanges, the clock, cancellation) in one argument.
-- Proxy/Listen: serveTCPConn of internal/proxy/listen.go, and Proxy/Listen/Datagrams its serveUDP.
-- Dnsclient: Classify of internal/dnsclient/dnsclient.go; Dnsclient/Framing: ReadMessage and
-- WriteMessage; Dnsclient/Exchange: Exchange, with what the network does in one argument. Proxy/Client
-- puts it in the place of the exchanges of a query, and Proxy/Service runs Resolve query after query.
-- Admin/Types: the server, requests and responses of internal/admin/admin.go and
-- internal/admin/api.go, and fail. Admin/Views, Admin/Gauges: what it shows. Admin/Changes: the
-- handlers that change the process. Admin/Routes: Handler and apiRoutes.
--
-- Choices. What math/rand draws in one call of Plan is an argument, one function for each call
-- site; the hypothesis IsRandom says that a shuffle keeps every element and that a bounded draw is
-- below its bound. The float64 arithmetic of the moving average and the clock are arguments. An
-- index out of range, which panics in Go, is `none`; the conversion of the round-robin counter to a
-- signed int is written out. Counters of type uint64 wrap; the streak counters and sums of weights,
-- of type int, are taken not to overflow. A call is taken whole, and calls one after another: the
-- model has no two calls that overlap. In the program they can. record and SetInitial store `up`,
-- and call back, after they have unlocked the endpoint; the callback counts the healthy upstreams
-- and tells the tracker with no lock over both; ReportQuery locks the endpoint twice; Plan and
-- Status read `up` several times under a lock that does not keep it from changing; and the handler
-- of the overview reads in five calls. What such overlaps do is not covered. Loops are structural
-- recursion, but for the loop of parseName, whose fuel is one more than the number of bytes of the
-- message: each round takes one byte at least. The goroutines of a sweep report one after another,
-- in any order, which is an argument; a query's forwarding is taken in one piece, between other
-- events. The loop of serveTCPConn has as fuel the bytes that will arrive: each message takes three
-- of them at least. The datagrams that reach an exchange before its deadline are a list. A request
-- of the management interface sees one state, and its body comes decoded.
--
-- Not modelled: the text of the metrics page, of the summary and of JSON, and arithmetic in float64,
-- of which a quotient is kept as its two numbers; and YAML, sockets, files, the HTTP server, logging
-- and HTML, which are I/O.
mod Base
pub mod Config
pub mod Pool
pub mod Fallback
pub mod Dnsmsg
pub mod Stats
pub mod Control
pub mod Metrics
pub mod System
pub mod Proxy
pub mod Dnsclient
pub mod Checker
pub mod Admin
