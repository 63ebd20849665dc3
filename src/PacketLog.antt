-- ===== src/PacketLog.antt =====
-- kernel/src/log/packet_filter.c: the log of accepted packets. Each CPU has a counter, a work item and
-- a timer; events go to a ring buffer, whose pages the work item sends to the listeners. The ring
-- buffer is Linux's, also the functions on its events that kernel/src/util/ring_buffer.c copies.
pub mod Page
pub mod Sent
pub mod Read
pub mod Flush
pub mod Pace
pub mod Init
use librefw.Base.{ℕ, ◌+◌, ◌%◌, ◌^◌, Bool, true, false, Option, none, some, leb, ◌==◌, if◌then◌else◌}
use librefw.Base.Int.{ℤ, pos, e_nomem}

-- `struct pkt_filter_event`, the addresses and ports as their words are loaded.
pub record PktFilterEvent : Type 0 where
  pub source_ip : ℕ
  pub dest_ip : ℕ
  pub source_port : ℕ
  pub dest_port : ℕ
  pub protocol : ℕ
  pub ttl : ℕ
  pub action : ℕ

-- A port pair of a TCP or UDP header
pub record Ports : Type 0 where
  pub source : ℕ
  pub dest : ℕ

-- What is read of a packet: fields of the IP header, and the ports where `skb_header_pointer` finds a
-- TCP or a UDP header behind it.
pub record LoggedPacket : Type 0 where
  pub saddr : ℕ
  pub daddr : ℕ
  pub ttl : ℕ
  pub protocol : ℕ
  pub tcp_header : Option Ports
  pub udp_header : Option Ports

abbrev pub ipproto_tcp : ℕ
ipproto_tcp = 6

abbrev pub ipproto_udp : ℕ
ipproto_udp = 17

abbrev pub ports_or_zero : Option Ports → Ports
ports_or_zero none = record { source = 0; dest = 0 }
ports_or_zero (some p) = p

abbrev pub ports_of : LoggedPacket → Ports
ports_of p =
    if p.protocol == ipproto_tcp
    then ports_or_zero p.tcp_header
    else if p.protocol == ipproto_udp
    then ports_or_zero p.udp_header
    else ports_or_zero none

-- The entry that is filled in
unfoldable pub entry_of : LoggedPacket → PktFilterEvent
entry_of p = record {
  source_ip = p.saddr;
  dest_ip = p.daddr;
  source_port = (ports_of p).source;
  dest_port = (ports_of p).dest;
  protocol = p.protocol;
  ttl = p.ttl;
  action = 1;
}

-- The variables of one CPU, and whether its work item waits to be run.
pub record Cpu : Type 0 where
  pub packet_counter : ℕ
  pub full_pages_only : Bool
  pub queued : Bool

-- `if (queue_work(…)) __this_cpu_write(packet_counter, 0)`: a work item that waits is not queued again.
unfoldable pub queue_flush : Cpu → Cpu
queue_flush c =
    if c.queued
    then c
    else record { packet_counter = 0; full_pages_only = c.full_pages_only; queued = true }

-- The count of a packet
unfoldable pub count_packet : Cpu → Cpu
count_packet c =
    let n = (c.packet_counter + 1) % 2 ^ 32 in
    if leb 200 n
    then queue_flush (record { packet_counter = n; full_pages_only = true; queued = c.queued })
    else record c { packet_counter = n }

-- `reserved` says whether the ring buffer has room. The CPU's variables, the event that is committed,
-- and the return code.
unfoldable pub log_pkt_filter_event : Bool → LoggedPacket → Cpu → Cpu × Option PktFilterEvent × ℤ
log_pkt_filter_event false p c = (count_packet c, none, e_nomem)
log_pkt_filter_event true p c = (count_packet c, some (entry_of p), pos 0)

-- The timer's function, every 60 seconds
unfoldable pub sched_flush_pkt_filter_events : Cpu → Cpu
sched_flush_pkt_filter_events c = queue_flush (record c { full_pages_only = false })

-- The workqueue takes the work item up: it can be queued again.
abbrev pub take_up : Cpu → Cpu
take_up c = record c { queued = false }
