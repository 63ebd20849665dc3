-- ===== src/Client/PacketFilter.antt =====
-- src/nl/packet_filter_log.cpp: the listener that prints the packet log.
pub mod Heard
pub mod Offset
pub mod Printed
use librefw.Base.{ℕ, ◌+◌, ◌-◌, ◌*◌, ◌%◌, ◌^◌, List, [], ◌∷◌, ◌==◌, if◌then◌else◌}
use librefw.Netlink.{
  Nla, Attribute, scalar, nest, nla_get_u8, nla_get_u16, nla_get_u32, nla_get_u64,
}
use librefw.Netlink.Attr

-- `struct PacketFilterEvent`
pub record PacketFilterEvent : Type 0 where
  pub ts : ℕ
  pub source_ip : ℕ
  pub dest_ip : ℕ
  pub source_port : ℕ
  pub dest_port : ℕ
  pub proto : ℕ
  pub ttl : ℕ
  pub action : ℕ

-- A clock: seconds below 2 ^ 63 and nanoseconds
pub record Timespec : Type 0 where
  pub tv_sec : ℕ
  pub tv_nsec : ℕ

-- The constructor's `boot_ns`, in unsigned 64-bit arithmetic
unfoldable pub boot_ns : (real_tp boot_tp : Timespec) → ℕ
boot_ns real_tp boot_tp =
    ((real_tp.tv_sec + 2 ^ 64 - boot_tp.tv_sec) * 1000000000
      + (real_tp.tv_nsec + 2 ^ 64 - boot_tp.tv_nsec))
    % 2 ^ 64

-- The switch on the type of a nested attribute
unfoldable pub set_event_field : (boot : ℕ) → Nla → PacketFilterEvent → PacketFilterEvent
set_event_field boot a e =
    let t = a.nla_type in
    if t == Attr.pkt_filter_log_ts
    then record e { ts = (nla_get_u64 a + boot) % 2 ^ 64 }
    else if t == Attr.pkt_filter_log_src_ip
    then record e { source_ip = nla_get_u32 a }
    else if t == Attr.pkt_filter_log_dest_ip
    then record e { dest_ip = nla_get_u32 a }
    else if t == Attr.pkt_filter_log_src_port
    then record e { source_port = nla_get_u16 a }
    else if t == Attr.pkt_filter_log_dest_port
    then record e { dest_port = nla_get_u16 a }
    else if t == Attr.pkt_filter_log_proto
    then record e { proto = nla_get_u8 a }
    else if t == Attr.pkt_filter_log_ttl
    then record e { ttl = nla_get_u8 a }
    else if t == Attr.pkt_filter_log_action
    then record e { action = nla_get_u8 a }
    else e

abbrev pub no_event : PacketFilterEvent
no_event = record {
  ts = 0;
  source_ip = 0;
  dest_ip = 0;
  source_port = 0;
  dest_port = 0;
  proto = 0;
  ttl = 0;
  action = 0;
}

unfoldable pub read_event : (boot : ℕ) → List Nla → PacketFilterEvent → PacketFilterEvent
read_event boot [] e = e
read_event boot (a ∷ as') e = read_event boot as' (set_event_field boot a e)

-- The events that are printed. `attrs` is what the loop finds from where it begins, attributes of the
-- log's type with those inside them.
unfoldable pub handle_attributes : (boot : ℕ) → List Attribute → List PacketFilterEvent
handle_attributes boot [] = []
handle_attributes boot (scalar a ∷ attrs) = handle_attributes boot attrs
handle_attributes boot (nest n ∷ attrs) =
    let rest = handle_attributes boot attrs in
    if n.nest_type == Attr.pkt_filter_log then read_event boot n.nested no_event ∷ rest else rest
