-- ===== src/Tests.antt =====
-- Concrete runs of the definitions.
use shoes_on_shuttle.Common.Text.{bytes_of}
use shoes_on_shuttle.Common.{◌≡◌, refl, none}
use shoes_on_shuttle.Net.Parse.{parse_ipv4, parse_ipv6}
use shoes_on_shuttle.Stream.{success}
use shoes_on_shuttle.Address.{ipv4, ipv6, hostname, address_from, location_from_str}

address_from-ipv4 :
    address_from (bytes_of "127.0.0.1") ≡ success (ipv4 (record { a = 127; b = 0; c = 0; d = 1 }))
unfolding address_from parse_ipv4
address_from-ipv4 = refl

address_from-ipv6 :
    address_from (bytes_of "2001:db8::ff00:42:8329")
    ≡ success (
        ipv6 (record {
          s0 = 0x2001;
          s1 = 0xdb8;
          s2 = 0;
          s3 = 0;
          s4 = 0;
          s5 = 0xff00;
          s6 = 0x42;
          s7 = 0x8329;
        }))
unfolding address_from parse_ipv6
address_from-ipv6 = refl

location_from_str-hostname :
    location_from_str (bytes_of "example.com:443") none
    ≡ success (record { address = hostname (bytes_of "example.com"); port = 443 })
unfolding location_from_str
location_from_str-hostname = refl
