-- ===== src/Connection/Timers.antt =====
-- The timers of one connection.
use shroomio.Base.{ℕ, ◌+◌, ◌<◌, ◌≡◌, ◌≢◌, ◌↔◌, true, arith, u32_mod}
use shroomio.Connection.{
  disconnected, Connection, update_activity, update_ping, calculate_rtt, is_timed_out,
}

-- A connection in use that was active at a time is timed out exactly when more than the timeout has
-- passed since; a clock that went back times nothing out.
pub is_timed_out-update_activity :
    (c : Connection) (at now timeout : ℕ)
    → c.state ≢ disconnected
    → is_timed_out (update_activity c at) now timeout ≡ true ↔ at + timeout < now
unfolding is_timed_out update_activity
is_timed_out-update_activity c at now timeout h = (λ e. ground arith, λ e. ground arith)

-- A round trip shorter than 2^32 ms is measured exactly, and kept; a pong before the ping measures
-- nothing and changes nothing.
pub calculate_rtt-update_ping :
    (c : Connection) (nonce at rtt pong : ℕ)
    → rtt < u32_mod
    → (calculate_rtt (update_ping c nonce at) (at + rtt)
        ≡ (record (update_ping c nonce at) { rtt_ms = rtt }, rtt))
      × (pong < at → calculate_rtt (update_ping c nonce at) pong ≡ (update_ping c nonce at, 0))
unfolding calculate_rtt update_ping
calculate_rtt-update_ping c nonce at rtt pong h = (ground arith, λ e. ground arith)
