-- ===== src/Socks/Constants.antt =====
-- The numbers of the protocol in `src/socks_handler.rs`.
use shoes_on_shuttle.Common.{ℕ}

abbrev pub ver_socks5 : ℕ
ver_socks5 = 0x05

abbrev pub ver_auth : ℕ
ver_auth = 0x01

abbrev pub method_none : ℕ
method_none = 0x00

abbrev pub method_username : ℕ
method_username = 0x02

abbrev pub method_invalid : ℕ
method_invalid = 0xff

abbrev pub result_success : ℕ
result_success = 0x0

abbrev pub cmd_connect : ℕ
cmd_connect = 0x01

abbrev pub cmd_udp_associate : ℕ
cmd_udp_associate = 0x03
