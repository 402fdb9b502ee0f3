-- ===== src/Lib.antt =====
-- dae-rs: the decisions of a transparent proxy.
--
-- The control plane decides, for each connection, by which outbound it leaves. Rules of the
-- configuration become entries (match sets) that the kernel's eBPF program and the userspace matcher
-- both walk; entries refer to compiled sets of addresses and of domain patterns; an outbound is a
-- group of nodes, whose dialer tries them in the order of its policy. The DNS forwarder reads queries,
-- answers from a cache of each group or asks upstream, and builds error answers itself.
--
-- Ruleset/Ranges, Ruleset/IpSet, Ruleset/SuffixTrie, Ruleset/DomainSet: control/src/ruleset/compiled.rs,
--   with the loops of `merge_ranges` and `contains_in_ranges`, the arena of trie nodes, and the sorted
--   and deduplicated vectors with their binary search. Their child modules hold the proofs.
-- Ruleset/Reference, Ruleset/QnameValue: control/src/ruleset/refparse.rs and the pattern types of
--   ruleset/types.rs; it is the linear scan that the compiled sets are compared with.
-- Ruleset/Lists: control/src/ruleset/list.rs, with the panic of a slice that ends inside a character as a
--   third outcome; `domain_line` and `ip_line` are rounds of the two loops over the lines.
-- Ruleset/Schedule: `parse_time` and `parse_period` of control/src/ruleset/types.rs, and the next
--   trigger of an entry in control/src/ruleset/scheduler.rs.
-- Routing/MatchSet: `MatchSet` of control/src/net/ebpf.rs, its value as the bytes of the union.
-- Routing/Matcher: `RoutingMatcher` of control/src/routing/matcher.rs. `round` is one round of the
--   inner loop of `match_routing`, `walk` the two loops. Matcher/Rules describes them rule by rule;
--   Matcher/Kernel has the loop of route() in bpf/kern/tproxy.c, with the evaluations that fail and end
--   it, and compares the two.
-- Routing/Expression, Routing/Action, Routing/DomainStrings: the parsers of control/src/routing/matcher.rs
--   for the functions of a rule, its action, and pattern strings. `comma_loop` and `and_loop` are the
--   loops of `parse_comma_separated` and `split_and_respecting_parens`; an error keeps its kind and not
--   its message. `parse_match` is the part of `parse_rule` that reads the functions.
-- Text/Numbers, Text/Address: `parse` of integers and addresses of the standard library.
-- Routing/Lowering: the compiler from rules to entries of control/src/routing/matcher.rs, with the
--   grouping of parameters, the outbounds and the lists of addresses. Lowering/Tries has
--   `find_or_create_lpm_trie`, Lowering/Entries `build_match_set_for_function`, Lowering/Domains the
--   domain sets, Lowering/Compile `compile_rules`; `index_panic` is the panic of an index out of bounds.
-- Net/UdpTracker: `UdpConnStateTracker` of control/src/net/udp_tracker.rs: a hash map is a list of its
--   entries, and the clock an argument.
-- Net/Janitor: the pressure mode of `spawn_conn_state_janitor` in control/src/lib.rs. A round is given
--   by how it ends: a lock, a scan or a count that fails, or the usage of the map.
--   Janitor/Scan: `janitor_scan_and_delete` of control/src/net/ebpf.rs, Scan/Ages the tests that its
--   callers pass.
-- Group: control/src/group.rs; `dial_loop` is the pass of `try_dial` and of `try_udp_dial`.
-- Dns: control/src/net/dns.rs. Read is a monad for reading bytes, with a fault for an index out of
--   bounds; Wire has the queries, Ttl the TTL of a response, Response the answers that the forwarder
--   edits or makes, Cache the cache of one group, Forwarder `resolve` with the caches and the keys in
--   flight as its state. One query is a function of that state; `wait` is what other tasks do to it
--   while the query waits for another one of its key, or for its group's lock.
--   Dns/DomainRoutes has `from_config` and `build_dns_domain_routes` of control/src/routing/matcher.rs.
-- Text: what the sources use of `str`, and `sort`, `dedup` and `binary_search` of slices of `String`.
-- Prelude: names of the libraries, Boolean tests on numbers, and lemmas on lists.
-- Tests: instances of the theorems at concrete inputs.
--
-- A text is the list of its code points, a byte or an address a number; what the sources do modulo
-- 2^32 or 2^128 is written out, as the release profile computes it, without overflow checks. Times
-- are nanoseconds, and the clock is an argument. The loops over the bytes of a message run on a
-- fuel of one more than the length of the message, which is enough since each round moves on by at
-- least a byte; the binary search runs on the length of the vector, since each round makes its
-- interval shorter. Running out of fuel is a fault in Dns.
--
-- Parameters stand for code that is elsewhere: the crate regex (`Regex::new` and `is_match`), the
-- shuffle of fastrand, the dialers of the nodes, the rule sets in memory, and the upstreams of a
-- DNS query, the calendar of the crate chrono, the latest instant of the clock, what a case of the
-- kernel's evaluation of an entry tests, the parser of networks of the crate ipnet, the system
-- calls on a kernel map, and the usage of the connection map, a floating-point number. A network
-- is given by its address, its prefix length, and its `network()`, which has zero host bits.
--
-- Not modelled: the parsers of `RulesBuilder`, which nothing calls, the forwarder's tasks, sessions and
-- sockets (the model of one query does not interleave two), the configuration, the downloads of rule
-- sets and the tasks of their scheduler, the protocols, and the rest of what talks to the kernel.
pub mod Prelude
pub mod Text
pub mod Ruleset
pub mod Routing
pub mod Group
pub mod Dns
pub mod Net
pub mod Tests
