-- ===== src/PacketLog/Flush/Delivered.antt =====
-- What the messages hold that the work item sends for its pages.
use mathlib.Core.Path.{subst}
use librefw.Base.{
  ℕ, suc, ◌≡◌, refl, sym, ap, ◌∙◌, ◌⊎◌, inl, inr, true, none, some, List, [], ◌∷◌, map, arith,
}
use librefw.Base.Int.{ℤ, is_nonzero}
use librefw.Netlink.Cmd
use librefw.Netlink.Buffer.{Writer, IsLawful}
use librefw.Netlink.Multicast.{Genl, Fate, unallocated, freed, sent}
use librefw.Netlink.Delivered.{multicast-unallocated, multicast-freed, multicast-Delivers}
use librefw.PacketLog.{PktFilterEvent}
use librefw.PacketLog.Page.{RingEvent, Ring, process_rb_page}
use librefw.PacketLog.Sent.{Refuses, Added}
use librefw.PacketLog.Read.{Lays, stamped, process_rb_page-writes}
use librefw.PacketLog.Flush.{FlushCtx, page_callback, flush_page, flush_pkt_filter_events}

-- A page with the events on it
pub record LaidPage (r : Ring) : Type 0 where
  pub ctx : FlushCtx
  pub events : List RingEvent
  pub lays : Lays r ctx.bpage ctx.data_offset 0 events

abbrev pub page_packets : (r : Ring) → LaidPage r → List (ℕ × PktFilterEvent)
page_packets r p = stamped r p.ctx.bpage.page_time p.events

-- What becomes of a page: there is no memory for a message; or the message is given up, since it gets no
-- header or there is no room for a packet; or it goes to the group of the packet log and holds packets of
-- the page, put into a new message.
abbrev pub IsDelivered : (W : Writer) (g : Genl W) (r : Ring) → LaidPage r → Fate W.Buf → Type 0
IsDelivered W g r p unallocated = g.genlmsg_new 8192 ≡ none
IsDelivered W g r p freed =
    (skb : W.Buf) × (g.genlmsg_new 8192 ≡ some skb)
    × ((g.genlmsg_put Cmd.pkt_filter_log skb ≡ none)
        ⊎ ((blank_msg : W.Buf) × (g.genlmsg_put Cmd.pkt_filter_log skb ≡ some blank_msg)
            × Refuses W (page_packets r p) blank_msg))
IsDelivered W g r p (sent grp b) =
    (grp ≡ Cmd.group_pkt_filter_log)
    × (skb : W.Buf) × (g.genlmsg_new 8192 ≡ some skb)
    × (blank_msg : W.Buf) × (g.genlmsg_put Cmd.pkt_filter_log skb ≡ some blank_msg)
    × Added W (page_packets r p) [] blank_msg b

abbrev pub AreDelivered :
    (W : Writer) (g : Genl W) (r : Ring) → List (LaidPage r) → List (Fate W.Buf × ℤ) → Type 0
AreDelivered W g r [] [] = Unit
AreDelivered W g r [] (f ∷ fates) = ⊥
AreDelivered W g r (p ∷ pages) [] = ⊥
AreDelivered W g r (p ∷ pages) (f ∷ fates) =
    IsDelivered W g r p f.0 × AreDelivered W g r pages fates

module _ (W : Writer) (law : IsLawful W) (g : Genl W) (r : Ring) where
  callback-run :
      (ctx : FlushCtx) (b : W.Buf) (result : W.Buf × ℤ)
      → process_rb_page W r ctx.bpage ctx.data_offset (suc ctx.bpage.commit) b ≡ some result
      → page_callback W r ctx b ≡ result
  unfolding page_callback
  callback-run ctx b result e = rw (e, page_callback) refl

  flush_page-IsDelivered :
      (p : LaidPage r) (grp : ℕ) (b : W.Buf) (ret : ℤ)
      → flush_page W g r p.ctx ≡ (sent grp b, ret)
      → IsDelivered W g r p (sent grp b)
  unfolding flush_page
  flush_page-IsDelivered p grp b ret run =
      let d =
        multicast-Delivers W g Cmd.group_pkt_filter_log Cmd.pkt_filter_log (page_callback W r p.ctx)
          8192 grp b ret run in
      let (b', code, ran, good, added) =
        process_rb_page-writes W law r p.ctx.bpage p.ctx.data_offset p.ctx.bpage.commit p.events
          d.blank_msg (omega arith) p.lays d.is_blank in
      let same : b' ≡ b =
        ap (λ (x : W.Buf × ℤ). x.0) (sym (callback-run p.ctx d.blank_msg (b', code) ran))
        ∙ d.wrote in
      (
        d.same_group,
        d.new_msg,
        d.allocated,
        d.blank_msg,
        d.headed,
        subst (Added W (page_packets r p) [] d.blank_msg) same added,
      )

  -- A callback that fails was refused room.
  failed-Refuses :
      (p : LaidPage r) (skb blank_msg : W.Buf)
      → g.genlmsg_new 8192 ≡ some skb
      → g.genlmsg_put Cmd.pkt_filter_log skb ≡ some blank_msg
      → is_nonzero (page_callback W r p.ctx blank_msg).1 ≡ true
      → Refuses W (page_packets r p) blank_msg
  failed-Refuses p skb blank_msg made headed failed =
      let (b', code, ran, good, added) =
        process_rb_page-writes W law r p.ctx.bpage p.ctx.data_offset p.ctx.bpage.commit p.events
          blank_msg (omega arith) p.lays
          (g.begins_empty 8192 Cmd.pkt_filter_log skb blank_msg made headed) in
      let ends =
        ap (λ (x : W.Buf × ℤ). is_nonzero x.1) (callback-run p.ctx blank_msg (b', code) ran) in
      elim good [
        | inr small ↦ small
        | inl zero_code ↦ absurd (cc (ends, failed, ap is_nonzero zero_code))
      ]

  page-IsDelivered :
      (p : LaidPage r) (f : Fate W.Buf × ℤ) → flush_page W g r p.ctx ≡ f → IsDelivered W g r p f.0
  unfolding flush_page
  page-IsDelivered p (unallocated, ret) run =
      multicast-unallocated W g Cmd.group_pkt_filter_log Cmd.pkt_filter_log
        (page_callback W r p.ctx) 8192 (ap (λ (x : Fate W.Buf × ℤ). x.0) run)
  page-IsDelivered p (freed, ret) run =
      let (skb, made, why) =
        multicast-freed W g Cmd.group_pkt_filter_log Cmd.pkt_filter_log (page_callback W r p.ctx)
          8192 (ap (λ (x : Fate W.Buf × ℤ). x.0) run) in
      elim why [
        | inl bare ↦ (skb, made, inl bare)
        | inr (blank_msg, headed, failed) ↦
            (skb, made, inr (blank_msg, headed, failed-Refuses p skb blank_msg made headed failed))
      ]
  page-IsDelivered p (sent grp b, ret) run = flush_page-IsDelivered p grp b ret run

  -- For each page the work item asks for a new message of 8192 bytes. It sends none only if there is no
  -- memory for it, if it gets no header, or if there is no room for one of the packets of the page after
  -- what was put for those before it. A message that it sends goes to the group of the packet log, and one
  -- nested attribute was written into it for each of some of the packets of the page, in their order
  -- and with their time stamps and fields; no packet is left out unless there is no room for one of them
  -- after what was put for those before it: its nested attribute cannot be started, or one of the
  -- attributes inside finds no room.
  pub flush_pkt_filter_events-AreDelivered :
      (pages : List (LaidPage r))
      → AreDelivered W g r pages
          (flush_pkt_filter_events W g r (map (λ (p : LaidPage r). p.ctx) pages))
  unfolding flush_pkt_filter_events
  flush_pkt_filter_events-AreDelivered [] = tt
  flush_pkt_filter_events-AreDelivered (p ∷ pages) =
      (page-IsDelivered p (flush_page W g r p.ctx) refl, flush_pkt_filter_events-AreDelivered pages)
