-- ===== src/Routing/MatchSet/MatchType.antt =====
-- control/src/net/ebpf.rs: `mod match_type`.
use dae_rs.Prelude.{ℕ}

abbrev pub domain_set : ℕ
domain_set = 0

abbrev pub ip_set : ℕ
ip_set = 1

abbrev pub source_ip_set : ℕ
source_ip_set = 2

abbrev pub port : ℕ
port = 3

abbrev pub source_port : ℕ
source_port = 4

abbrev pub l4_proto : ℕ
l4_proto = 5

abbrev pub ip_version : ℕ
ip_version = 6

abbrev pub mac : ℕ
mac = 7

abbrev pub process_name : ℕ
process_name = 8

abbrev pub dscp : ℕ
dscp = 9

abbrev pub fallback : ℕ
fallback = 10

abbrev pub must_rules : ℕ
must_rules = 11

abbrev pub upstream : ℕ
upstream = 12

abbrev pub qtype : ℕ
qtype = 13
