-- ===== src/Client/PacketFilter/Printed.antt =====
-- `PacketFilterEvent::print` of src/nl/packet_filter_log.cpp, and src/util.cpp. The C library's
-- `inet_ntop` is a parameter.
use librefw.Base.{ℕ, ◌+◌, ◌*◌, ◌/◌, ◌%◌, ◌<◌, ◌≡◌, Option, none, some, [], arith}
use librefw.Client.Text.{Text}
use librefw.Client.PacketFilter.{PacketFilterEvent}

unfoldable pub be32_ip_to_string : (inet_ntop : ℕ → Option Text) → ℕ → Text
be32_ip_to_string inet_ntop addr = elim (inet_ntop addr) [ none ↦ [] | some text ↦ text ]

-- On a little-endian machine
unfoldable pub ntohs : ℕ → ℕ
ntohs n = n % 256 * 256 + n / 256 % 256

-- What a line shows, in its order
pub record Line : Type 0 where
  pub ts : ℕ
  pub source_ip : Text
  pub source_port : ℕ
  pub dest_ip : Text
  pub dest_port : ℕ
  pub proto : ℕ
  pub ttl : ℕ

unfoldable pub print : (inet_ntop : ℕ → Option Text) → PacketFilterEvent → Line
print inet_ntop e = record {
  ts = e.ts;
  source_ip = be32_ip_to_string inet_ntop e.source_ip;
  source_port = ntohs e.source_port;
  dest_ip = be32_ip_to_string inet_ntop e.dest_ip;
  dest_port = ntohs e.dest_port;
  proto = e.proto;
  ttl = e.ttl;
}

-- A port whose two bytes in the packet are `high` and `low` is printed as a number.
pub ntohs-bytes :
    (high low : ℕ) → high < 256 → low < 256 → ntohs (high + 256 * low) ≡ 256 * high + low
unfolding ntohs
ntohs-bytes high low h h' = omega arith
