-- ===== src/Routing/MatchSet/Outbound.antt =====
-- control/src/net/ebpf.rs: `mod outbound`.
use dae_rs.Prelude.{ℕ}

abbrev pub direct : ℕ
direct = 0x0

abbrev pub block : ℕ
block = 0x1

abbrev pub must_rules : ℕ
must_rules = 0xfc

abbrev pub control_plane_routing : ℕ
control_plane_routing = 0xfd

abbrev pub logical_or : ℕ
logical_or = 0xfe

abbrev pub logical_and : ℕ
logical_and = 0xff

abbrev pub logical_mask : ℕ
logical_mask = 0xfe
