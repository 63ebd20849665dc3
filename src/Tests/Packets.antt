-- ===== src/Tests/Packets.antt =====
-- The theorems on the packet log, at one page and at one CPU.
use librefw.Base.{
  ℕ, zero, suc, ◌≡◌, ◌⊎◌, refl, Bool, true, false, none, some, List, [], ◌∷◌, arith, ◌==◌,
  if◌then◌else◌, map, ◌+◌, ◌*◌, Option,
}
use librefw.Base.Int.{ℤ, pos}
use librefw.Netlink.Buffer.{Draft}
use librefw.PacketLog.{LoggedPacket, Cpu, entry_of}
use librefw.PacketLog.Page.{RingEvent, Ring, RingPage, payload, time_extend, process_rb_page}
use librefw.PacketLog.Sent.{Added, Refuses}
use librefw.PacketLog.Read.{Lays, laid_event, laid_end, stamped, process_rb_page-writes}
use librefw.PacketLog.Pace.{log_all, log_all-flushes}
use librefw.PacketLog.Flush.{flush_pkt_filter_events}
use librefw.PacketLog.Flush.Delivered.{LaidPage, AreDelivered, flush_pkt_filter_events-AreDelivered}
use librefw.PacketLog.Init.{ReadPage, error_ptr, freed_page, Calls, IsCalls, any_queued, run_queued}
use librefw.PacketLog.Init.{PerCpu, allocated_page, free_pkt_filter_log_state}
use librefw.PacketLog.Init.Retired.{
  all_held, retired, free_pkt_filter_log_state-queued, Begins, init_pkt_filter_log_state-Begins,
}
use librefw.Base.{◌-◌, length, ltb}
use librefw.Netlink.{Attribute, scalar}
use librefw.PacketLog.{PktFilterEvent}
use librefw.PacketLog.Sent.{packet_nest}
use librefw.Client.PacketFilter.Offset.{
  Wire, IsWire, attrs_size, listener_callback, listener_callback-silent,
}
use librefw.Tests.Roomy.{roomy, roomy-IsLawful, genl, empty_draft}

-- A TCP segment from 192.0.2.1
abbrev segment : LoggedPacket
segment = record {
  saddr = 0x0102_00c0;
  daddr = 0x0a00_0001;
  ttl = 57;
  protocol = 6;
  tcp_header = some (record { source = 80; dest = 443 });
  udp_header = none;
}

abbrev segment_event : RingEvent
segment_event = record { kind = payload; time_delta = 5; entry = entry_of segment }

abbrev extend_event : RingEvent
extend_event = record { kind = time_extend; time_delta = 9; entry = entry_of segment }

-- Events of 8 bytes
abbrev ring : Ring
ring = record {
  rb_event_length = λ e. 8;
  rb_event_time_stamp = λ e. e.time_delta;
  rb_fix_abs_ts = λ t save. t;
}

-- A time extension and a packet
abbrev page : RingPage
page = record {
  page_time = 1000;
  commit = 16;
  event_at = λ i. if i == 20 then extend_event else segment_event;
}

page-Lays : Lays ring page 20 0 (extend_event ∷ segment_event ∷ [])
page-Lays =
    laid_event 0 (segment_event ∷ []) (omega arith) (omega arith)
      (laid_event 8 [] (omega arith) (omega arith) (laid_end 16 (omega arith)))

process_rb_page-writes_example :
    (b : Draft) × (ret : ℤ) × (process_rb_page roomy ring page 20 17 empty_draft ≡ some (b, ret))
    × ((ret ≡ pos 0)
        ⊎ Refuses roomy (stamped ring 1000 (extend_event ∷ segment_event ∷ [])) empty_draft)
    × Added roomy (stamped ring 1000 (extend_event ∷ segment_event ∷ [])) [] empty_draft b
process_rb_page-writes_example =
    process_rb_page-writes roomy roomy-IsLawful ring page 20 16 (extend_event ∷ segment_event ∷ [])
      empty_draft (omega arith) page-Lays refl

abbrev repeated : ℕ → List (Bool × LoggedPacket)
repeated zero = []
repeated (suc n) = (true, segment) ∷ repeated n

-- A CPU whose counter is 7, before 200 packets
abbrev cpu : Cpu
cpu = record { packet_counter = 7; full_pages_only = false; queued = false }

log_all-flushes_example : (log_all (repeated 200) cpu).0.queued ≡ true
log_all-flushes_example = log_all-flushes (repeated 200) cpu (omega arith) (omega arith)

abbrev laid : LaidPage ring
laid = record {
  ctx = record { bpage = page; data_offset = 20 };
  events = extend_event ∷ segment_event ∷ [];
  lays = page-Lays;
}

flush_pkt_filter_events-AreDelivered_example :
    AreDelivered roomy genl ring
      (laid ∷ [])
      (flush_pkt_filter_events roomy genl ring (laid.ctx ∷ []))
flush_pkt_filter_events-AreDelivered_example =
    flush_pkt_filter_events-AreDelivered roomy roomy-IsLawful genl ring (laid ∷ [])

-- Calls that look at every CPU
abbrev free_page : ReadPage → Option ReadPage
free_page error_ptr = none
free_page freed_page = none
free_page allocated_page = some freed_page

abbrev read_page : ReadPage → Option ReadPage
read_page error_ptr = none
read_page freed_page = none
read_page allocated_page = some allocated_page

abbrev pub calls : Calls
calls = record {
  ring_buffer_free_read_page = free_page;
  ring_buffer_read_page = read_page;
  destroy_workqueue = run_queued;
}

pub calls-IsCalls : IsCalls calls
calls-IsCalls = record {
  free-page = refl;
  free-error = refl;
  read-page = refl;
  read-freed = refl;
  destroy-runs = λ work cs. refl;
}

-- A CPU with a read page and a work item that waits
abbrev busy : PerCpu
busy = record {
  vars = record { packet_counter = 0; full_pages_only = true; queued = true };
  rpage = allocated_page;
  timer = true;
}

free_pkt_filter_log_state-queued_example :
    free_pkt_filter_log_state calls (busy ∷ []) all_held
    ≡ (if any_queued (busy ∷ []) then none else some (map retired (busy ∷ []), []))
free_pkt_filter_log_state-queued_example =
    free_pkt_filter_log_state-queued calls calls-IsCalls (busy ∷ []) (refl, tt)

init_pkt_filter_log_state-Begins_example : Begins calls true true true (true ∷ false ∷ [])
init_pkt_filter_log_state-Begins_example =
    init_pkt_filter_log_state-Begins calls calls-IsCalls true true true (true ∷ false ∷ [])

zeros : ℕ → List ℕ
zeros zero = []
zeros (suc n) = 0 ∷ zeros n

length-zeros : (n : ℕ) → length (zeros n) ≡ n
unfolding zeros
length-zeros zero = refl
length-zeros (suc n) = omega (arith, length-zeros n)

-- Attributes of zeros, and a walk that finds one attribute where its length fits
abbrev walk : List ℕ → List Attribute
walk (a ∷ b ∷ c ∷ d ∷ rest) =
    if ltb (4 + length rest) (a + 256 * b)
    then []
    else scalar (record { nla_type = c + 256 * d; nla_len = a + 256 * b - 4; word = 0 }) ∷ []
walk bytes = []

abbrev wire : Wire
wire = record { encode = λ as'. zeros (attrs_size as'); nla_for_each_attr = walk }

wire-IsWire : IsWire wire
wire-IsWire = record {
  encoded = λ as'. omega (arith, length-zeros (attrs_size as'));
  too_long = λ a b c d rest long. ground (arith, long);
}

abbrev two_packets : List (ℕ × PktFilterEvent)
two_packets = (1005, entry_of segment) ∷ (1010, entry_of segment) ∷ []

listener_callback-silent_example : listener_callback wire 0 (map packet_nest two_packets) ≡ []
listener_callback-silent_example =
    listener_callback-silent wire 0 two_packets wire-IsWire (omega arith)
