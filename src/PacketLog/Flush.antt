-- ===== src/PacketLog/Flush.antt =====
-- `flush_pkt_filter_events`: the work item sends one message for each page that it reads.
pub mod Delivered
use librefw.Base.{ℕ, suc, Option, none, some, List, [], ◌∷◌}
use librefw.Base.Int.{ℤ, pos}
use librefw.Netlink.Cmd
use librefw.Netlink.Buffer.{Writer}
use librefw.Netlink.Multicast.{Genl, Fate, lfw_make_multicast_msg}
use librefw.PacketLog.Page.{Ring, RingPage, process_rb_page}

-- `struct pkt_filter_flush_ctx`
pub record FlushCtx : Type 0 where
  pub bpage : RingPage
  pub data_offset : ℕ

-- `process_rb_page` as a callback, on fuel for every byte of the page, with which it returns.
unfoldable pub page_callback : (W : Writer) → Ring → FlushCtx → W.Buf → W.Buf × ℤ
page_callback W r ctx skb =
    elim (process_rb_page W r ctx.bpage ctx.data_offset (suc ctx.bpage.commit) skb) [
      | none ↦ (skb, pos 0)
      | some result ↦ result
    ]

unfoldable pub flush_page : (W : Writer) → Genl W → Ring → FlushCtx → Fate W.Buf × ℤ
flush_page W g r ctx =
    lfw_make_multicast_msg W g Cmd.group_pkt_filter_log Cmd.pkt_filter_log (page_callback W r ctx)
      8192

-- The loop, over the pages that `ring_buffer_read_page` returns before its first negative code.
unfoldable pub flush_pkt_filter_events :
    (W : Writer) → Genl W → Ring → List FlushCtx → List (Fate W.Buf × ℤ)
flush_pkt_filter_events W g r [] = []
flush_pkt_filter_events W g r (ctx ∷ pages) =
    flush_page W g r ctx ∷ flush_pkt_filter_events W g r pages
