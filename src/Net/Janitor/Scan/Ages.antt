-- ===== src/Net/Janitor/Scan/Ages.antt =====
-- The tests of age in `janitor_scan_conn_state`, `janitor_scan_redirect_track` and
-- `janitor_scan_cookie_pid_map` of control/src/net/ebpf.rs. The native order of bytes is taken to be
-- little-endian.
use dae_rs.Prelude.{
  ℕ, ◌+◌, ◌-◌, ◌*◌, Bool, false, ◌&&◌, [], ◌∷◌, ltb, ◌==◌, length, take, drop, get_or,
  if◌then◌else◌,
}
use dae_rs.Net.Janitor.Scan.{Bytes}

abbrev pub redirect_track_timeout_ns : ℕ
redirect_track_timeout_ns = 300_000_000_000

abbrev pub cookie_pid_map_timeout_ns : ℕ
cookie_pid_map_timeout_ns = 300_000_000_000

abbrev pub tcp_closing_timeout_ns : ℕ
tcp_closing_timeout_ns = 10_000_000_000

abbrev pub udp_timeout_ns : ℕ
udp_timeout_ns = 120_000_000_000

abbrev pub tcp_active_pressure_timeout_ns : ℕ
tcp_active_pressure_timeout_ns = 600_000_000_000

-- `u64::from_ne_bytes` of eight bytes.
unfoldable pub from_ne_bytes : Bytes → ℕ
from_ne_bytes [] = 0
from_ne_bytes (b ∷ bs) = b + 256 * from_ne_bytes bs

unfoldable pub idle_ns : ℕ → ℕ → Bytes → ℕ
unfolding from_ne_bytes
idle_ns now_ns offset val = now_ns - from_ne_bytes (take 8 (drop offset val))

-- State 1 is closing and 0 active; protocol 6 is TCP.
unfoldable pub state_expired : Bool → ℕ → ℕ → ℕ → Bool
state_expired in_pressure state l4proto idle =
    if state == 1
    then ltb tcp_closing_timeout_ns idle
    else if state == 0 && l4proto == 6
    then in_pressure && ltb tcp_active_pressure_timeout_ns idle
    else ltb udp_timeout_ns idle

unfoldable pub conn_state_expired : Bool → ℕ → Bytes → Bytes → Bool
unfolding idle_ns state_expired
conn_state_expired in_pressure now_ns key val =
    if ltb (length val) 16
    then false
    else state_expired in_pressure (get_or val 1 0) (get_or key 36 0) (idle_ns now_ns 8 val)

unfoldable pub redirect_track_expired : ℕ → Bytes → Bytes → Bool
unfolding idle_ns
redirect_track_expired now_ns key val =
    if ltb (length val) 32 then false else ltb redirect_track_timeout_ns (idle_ns now_ns 24 val)

unfoldable pub cookie_pid_expired : ℕ → Bytes → Bytes → Bool
unfolding idle_ns
cookie_pid_expired now_ns key val =
    if ltb (length val) 8 then false else ltb cookie_pid_map_timeout_ns (idle_ns now_ns 0 val)
