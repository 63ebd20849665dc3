-- ===== src/PacketLog/Page.antt =====
-- `process_rb_page`: the events of one page of the ring buffer become a netlink message.
use librefw.Base.{
  ℕ, zero, suc, ◌+◌, ◌%◌, ◌^◌, Option, none, some, List, [], ◌∷◌, leb, if◌then◌else◌,
}
use librefw.Base.Int.{ℤ, pos, e_msgsize}
use librefw.Netlink.{Nla, u8_attr, u16_attr, u32_attr, u64_attr}
use librefw.Netlink.Attr
use librefw.Netlink.Buffer.{Writer, fits, full, nla_put_all}
use librefw.PacketLog.{PktFilterEvent}

-- `type_len` of an event
pub data Kind : Type 0 where
  padding : Kind
  time_extend : Kind
  time_stamp : Kind
  payload : Kind

-- An event of the ring buffer; `entry` is its payload, if it has one.
pub record RingEvent : Type 0 where
  pub kind : Kind
  pub time_delta : ℕ
  pub entry : PktFilterEvent

-- Linux's functions on events. The length -1 of a null event is none: committed data has no such event.
pub record Ring : Type 0 where
  pub rb_event_length : RingEvent → ℕ
  pub rb_event_time_stamp : RingEvent → ℕ
  pub rb_fix_abs_ts : ℕ → ℕ → ℕ

-- A page: its time stamp, the number of bytes committed, and the event that the bytes from an offset
-- on are.
pub record RingPage : Type 0 where
  pub page_time : ℕ
  pub commit : ℕ
  pub event_at : ℕ → RingEvent

-- The time after an event
unfoldable pub next_time : Ring → RingEvent → ℕ → ℕ
next_time r e ts = elim e.kind [
  | padding ↦ (ts + e.time_delta) % 2 ^ 64
  | time_extend ↦ (ts + r.rb_event_time_stamp e) % 2 ^ 64
  | time_stamp ↦ r.rb_fix_abs_ts (r.rb_event_time_stamp e) ts
  | payload ↦ (ts + e.time_delta) % 2 ^ 64
]

abbrev pub event_attrs : ℕ → PktFilterEvent → List Nla
event_attrs ts e =
    u64_attr Attr.pkt_filter_log_ts ts
    ∷ u32_attr Attr.pkt_filter_log_src_ip e.source_ip
    ∷ u32_attr Attr.pkt_filter_log_dest_ip e.dest_ip
    ∷ u16_attr Attr.pkt_filter_log_src_port e.source_port
    ∷ u16_attr Attr.pkt_filter_log_dest_port e.dest_port
    ∷ u8_attr Attr.pkt_filter_log_proto e.protocol
    ∷ u8_attr Attr.pkt_filter_log_ttl e.ttl
    ∷ u8_attr Attr.pkt_filter_log_action e.action
    ∷ []

-- One entry; `none` is the jump to `nla_failure`. After a cancelled nested attribute control goes on to
-- `nla_nest_end`.
unfoldable pub put_event : (W : Writer) → ℕ → PktFilterEvent → W.Buf → Option W.Buf
put_event W ts e skb = elim (W.nla_nest_start Attr.pkt_filter_log skb) [
  | none ↦ none
  | some skb' ↦ elim (nla_put_all W (event_attrs ts e) skb') [
    | fits skb'' ↦ some (W.nla_nest_end skb'')
    | full skb'' ↦ some (W.nla_nest_end (W.nla_nest_cancel skb''))
  ]
]

-- The body of the loop
unfoldable pub put_ring_event : (W : Writer) → ℕ → RingEvent → W.Buf → Option W.Buf
put_ring_event W ts e skb = elim e.kind [
  | padding ↦ some skb
  | time_extend ↦ some skb
  | time_stamp ↦ some skb
  | payload ↦ put_event W ts e.entry skb
]

-- The loop from `bytes_read` on, on fuel; `none` where the fuel runs out.
unfoldable pub page_loop :
    (W : Writer) → Ring → RingPage → (data_offset : ℕ) → ℕ → ℕ → ℕ → W.Buf → Option (W.Buf × ℤ)
page_loop W r page data_offset zero bytes_read ts skb = none
page_loop W r page data_offset (suc fuel) bytes_read ts skb =
    if leb page.commit bytes_read
    then some (skb, pos 0)
    else elim (put_ring_event W (next_time r (page.event_at (data_offset + bytes_read)) ts)
        (page.event_at (data_offset + bytes_read)) skb) [
          | none ↦ some (skb, e_msgsize)
          | some skb' ↦
              page_loop W r page data_offset fuel
                (bytes_read + r.rb_event_length (page.event_at (data_offset + bytes_read)))
                (next_time r (page.event_at (data_offset + bytes_read)) ts) skb'
        ]

unfoldable pub process_rb_page :
    (W : Writer) → Ring → RingPage → (data_offset fuel : ℕ) → W.Buf → Option (W.Buf × ℤ)
process_rb_page W r page data_offset fuel skb =
    page_loop W r page data_offset fuel 0 page.page_time skb
