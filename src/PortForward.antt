-- ===== src/PortForward.antt =====
-- `src/port_forward_handler.rs`. The counter of the targets is state that the handler returns changed.
pub mod Rotation
use shoes_on_shuttle.TcpHandler.{tcp_forward, TcpServerSetupResult}
use shoes_on_shuttle.Address.{NetLocation}
use shoes_on_shuttle.Stream.{pure, expect, Io, ◌>>=◌}
use shoes_on_shuttle.Common.{
  get_elem?, ◌^◌, ◌%◌, ◌+◌, none, false, some, ◌==◌, if◌then◌else◌, length, ℕ, Option, List, [],
  ◌∷◌,
}
use shoes_on_shuttle.OptionUtil.{NoneOrOne}

pub record PortForwardServerHandler : Type 0 where
  pub targets : List NetLocation
  pub next_target_index : ℕ

abbrev pub new : List NetLocation → PortForwardServerHandler
new targets = record { targets = targets; next_target_index = 0 }

abbrev with_handler :
    PortForwardServerHandler → Option NetLocation → Option (NetLocation × PortForwardServerHandler)
with_handler h none = none
with_handler h (some l) = some (l, h)

-- The location, and the handler afterwards. No targets panic, at the remainder by 0.
abbrev choose_target : PortForwardServerHandler → Option (NetLocation × PortForwardServerHandler)
choose_target h =
    let count = length h.targets in
    let turned = record h { next_target_index = (h.next_target_index + 1) % 2 ^ 32 } in
    if count == 1
    then with_handler h (get_elem? h.targets 0)
    else with_handler turned (get_elem? h.targets (h.next_target_index % count))

-- `TcpServerHandler::setup_server_stream`.
unfoldable pub setup_server_stream :
    PortForwardServerHandler → Io (TcpServerSetupResult × PortForwardServerHandler)
setup_server_stream h = do
  (location, h') ← expect (choose_target h)
  pure (tcp_forward location false none none NoneOrOne.unspecified, h')
