-- ===== src/Client/PacketFilter/Heard.antt =====
-- What the listener prints of the entries that `process_rb_page` writes.
use librefw.Base.{ℕ, ◌+◌, ◌*◌, ◌%◌, ◌^◌, ◌<◌, ◌≡◌, refl, List, [], ◌∷◌, map, All, arith}
use librefw.PacketLog.{PktFilterEvent}
use librefw.PacketLog.Page.{event_attrs}
use librefw.PacketLog.Sent.{packet_nest}
use librefw.Client.PacketFilter.{
  PacketFilterEvent, Timespec, boot_ns, set_event_field, no_event, read_event, handle_attributes,
}

-- A packet of the log, as the kernel's types bound it
abbrev pub IsPacket : ℕ × PktFilterEvent → Type 0
IsPacket p =
    (p.0 < 2 ^ 64)
    × (p.1.source_ip < 2 ^ 32)
    × (p.1.dest_ip < 2 ^ 32)
    × (p.1.source_port < 2 ^ 16)
    × (p.1.dest_port < 2 ^ 16)
    × (p.1.protocol < 2 ^ 8)
    × (p.1.ttl < 2 ^ 8)
    × (p.1.action < 2 ^ 8)

-- The packet with its time since the epoch
abbrev pub heard : ℕ → ℕ × PktFilterEvent → PacketFilterEvent
heard boot p = record {
  ts = (p.0 + boot) % 2 ^ 64;
  source_ip = p.1.source_ip;
  dest_ip = p.1.dest_ip;
  source_port = p.1.source_port;
  dest_port = p.1.dest_port;
  proto = p.1.protocol;
  ttl = p.1.ttl;
  action = p.1.action;
}

event-eq :
    (a a' b b' c c' d d' e e' f f' g g' h h' : ℕ)
    → a ≡ a'
    → b ≡ b'
    → c ≡ c'
    → d ≡ d'
    → e ≡ e'
    → f ≡ f'
    → g ≡ g'
    → h ≡ h'
    → ◌≡◌ {A = PacketFilterEvent}
        (record {
          ts = a;
          source_ip = b;
          dest_ip = c;
          source_port = d;
          dest_port = e;
          proto = f;
          ttl = g;
          action = h;
        })
        (record {
          ts = a';
          source_ip = b';
          dest_ip = c';
          source_port = d';
          dest_port = e';
          proto = f';
          ttl = g';
          action = h';
        })
event-eq a a' b b' c c' d d' e e' f f' g g' h h' p q r s t u v w = cc

read_event-heard :
    (boot : ℕ) (p : ℕ × PktFilterEvent)
    → IsPacket p
    → read_event boot (event_attrs p.0 p.1) no_event ≡ heard boot p
unfolding read_event set_event_field
read_event-heard boot p h =
    event-eq _ _ _ _ _ _ _ _ _ _ _ _ _ _ _ _ (omega (arith, h.0)) (omega (arith, h.1))
      (omega (arith, h.2)) (omega (arith, h.3)) (omega (arith, h.4)) (omega (arith, h.5))
      (omega (arith, h.6)) (omega (arith, h.7))

-- Where the listener's loop begins at the attributes that `process_rb_page` wrote for a list of packets,
-- it prints just these packets, in their order, each field as it was logged and the time moved by
-- `boot_ns`.
pub packet_nest-heard :
    (boot : ℕ) (ps : List (ℕ × PktFilterEvent))
    → All IsPacket ps
    → handle_attributes boot (map packet_nest ps) ≡ map (heard boot) ps
unfolding handle_attributes
packet_nest-heard boot [] h = refl
packet_nest-heard boot (p ∷ ps) h =
    rw (read_event-heard boot p h.0, packet_nest-heard boot ps h.1) refl

-- With `boot_ns` taken at one moment, a monotonic time from then on is moved to the real time: as long
-- after it as the monotonic time is after the monotonic clock, modulo 2 ^ 64.
pub boot_ns-real :
    (real_tp boot_tp : Timespec) (elapsed : ℕ)
    → boot_tp.tv_sec < 2 ^ 63
    → boot_tp.tv_nsec < 1000000000
    → (boot_tp.tv_sec * 1000000000 + boot_tp.tv_nsec + elapsed + boot_ns real_tp boot_tp) % 2 ^ 64
      ≡ (real_tp.tv_sec * 1000000000 + real_tp.tv_nsec + elapsed) % 2 ^ 64
unfolding boot_ns
boot_ns-real real_tp boot_tp elapsed h h' = omega arith
