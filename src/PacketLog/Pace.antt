-- ===== src/PacketLog/Pace.antt =====
-- How often the log is flushed: a work item waits after 200 packets at the latest.
use librefw.Base.{
  ◌+◌, ◌-◌, ◌^◌, ◌≤◌, ◌<◌, ◌≡◌, refl, ap, ◌∙◌, ◌⊎◌, inl, inr, Bool, true, false, none, some, List,
  [], ◌∷◌, arith, length,
}
use librefw.PacketLog.{
  PktFilterEvent, LoggedPacket, Cpu, queue_flush, count_packet, log_pkt_filter_event,
}

-- Packets that one CPU logs in a row, each with whether the ring buffer has room, and the events that
-- are committed for them.
unfoldable pub log_all : List (Bool × LoggedPacket) → Cpu → Cpu × List PktFilterEvent
log_all [] c = (c, [])
log_all ((reserved, p) ∷ ps) c =
    let (c', event, ret) = log_pkt_filter_event reserved p c in
    let (c'', events) = log_all ps c' in (c'', elim event [ none ↦ events | some e ↦ e ∷ events ])

-- What a packet does to the counter
count-cases :
    (c : Cpu)
    → c.packet_counter < 2 ^ 32 - 1
    → ((count_packet c).queued ≡ true)
      ⊎ (((count_packet c).queued ≡ false)
          × ((count_packet c).packet_counter ≡ c.packet_counter + 1)
          × (c.packet_counter + 1 < 200)
          × (c.queued ≡ false))
unfolding count_packet queue_flush
count-cases c h = ground arith

count-queued : (c : Cpu) → c.queued ≡ true → (count_packet c).queued ≡ true
unfolding count_packet queue_flush
count-queued c h = ground arith

logged-count :
    (reserved : Bool) (p : LoggedPacket) (c : Cpu)
    → (log_pkt_filter_event reserved p c).0 ≡ count_packet c
unfolding log_pkt_filter_event
logged-count true p c = refl
logged-count false p c = refl

log_all-step :
    (reserved : Bool) (p : LoggedPacket) (ps : List (Bool × LoggedPacket)) (c : Cpu)
    → (log_all ((reserved, p) ∷ ps) c).0 ≡ (log_all ps (count_packet c)).0
unfolding log_all
log_all-step reserved p ps c = ap (λ x. (log_all ps x).0) (logged-count reserved p c)

log_all-queued :
    (ps : List (Bool × LoggedPacket)) (c : Cpu) → c.queued ≡ true → (log_all ps c).0.queued ≡ true
unfolding log_all
log_all-queued [] c h = h
log_all-queued ((reserved, p) ∷ ps) c h =
    ap (λ (x : Cpu). x.queued) (log_all-step reserved p ps c)
    ∙ log_all-queued ps (count_packet c) (count-queued c h)

log_all-waits :
    (ps : List (Bool × LoggedPacket)) (c : Cpu)
    → c.packet_counter + length ps < 2 ^ 32
    → 200 ≤ c.packet_counter + length ps
    → c.packet_counter < 200
    → (log_all ps c).0.queued ≡ true
unfolding log_all
log_all-waits [] c h enough few = absurd (omega arith)
log_all-waits ((reserved, p) ∷ ps) c h enough few =
    ap (λ (x : Cpu). x.queued) (log_all-step reserved p ps c) ∙ elim (count-cases c (omega arith)) [
      | inl yes_queued ↦ log_all-queued ps (count_packet c) yes_queued
      | inr (out, count, below, free) ↦
          log_all-waits ps (count_packet c) (omega arith) (omega arith) (omega arith)
    ]

-- After at least 200 packets in a row that a CPU logs, whatever its counter was and whether or not
-- the ring buffer had room, its work item waits to be run, if the counter has not wrapped (it and
-- the number of the packets add up to less than 2 ^ 32).
pub log_all-flushes :
    (ps : List (Bool × LoggedPacket)) (c : Cpu)
    → c.packet_counter + length ps < 2 ^ 32
    → 200 ≤ length ps
    → (log_all ps c).0.queued ≡ true
log_all-flushes [] c h enough = absurd (omega arith)
log_all-flushes ((reserved, p) ∷ ps) c h enough =
    ap (λ (x : Cpu). x.queued) (log_all-step reserved p ps c) ∙ elim (count-cases c (omega arith)) [
      | inl yes_queued ↦ log_all-queued ps (count_packet c) yes_queued
      | inr (out, count, below, free) ↦
          log_all-waits ps (count_packet c) (omega arith) (omega arith) (omega arith)
    ]
