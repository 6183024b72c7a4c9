-- ===== src/TcpHandler.antt =====
-- `src/tcp_handler.rs`: what a server handler hands back once it has spoken with its client. The
-- stream itself is the state of the `Io` action, and an `Arc` is the number of what it points to.
use shoes_on_shuttle.Common.{ℕ, Bool, Option, Bytes}
use shoes_on_shuttle.Address.{NetLocation}
use shoes_on_shuttle.OptionUtil.{NoneOrOne}

pub data TcpServerSetupResult : Type 0 where
  tcp_forward :
      (remote_location : NetLocation) (need_initial_flush : Bool)
      (connection_success_response : Option Bytes) (initial_remote_data : Option Bytes)
      (override_proxy_provider : NoneOrOne ℕ)
      → TcpServerSetupResult
  bidirectional_udp_forward : (remote_location : NetLocation) → TcpServerSetupResult
  multidirectional_udp_forward : (need_initial_flush : Bool) → TcpServerSetupResult
