-- ===== src/Hcf/Log.antt =====
-- `hcf_log_new_ip` and `hcf_build_log_msg`: what the listeners hear about a new address.
pub mod Heard
use librefw.Base.{ℕ, List, [], ◌∷◌}
use librefw.Base.Int.{ℤ}
use librefw.Netlink.{Nla, u8_attr, u32_attr}
use librefw.Netlink.Attr
use librefw.Netlink.Cmd
use librefw.Netlink.Buffer.{Writer, nla_build}
use librefw.Netlink.Multicast.{Genl, Fate, lfw_make_multicast_msg}
use librefw.Hcf.{IpCtx}

-- The attributes of the message
abbrev pub ctx_attrs : IpCtx → List Nla
ctx_attrs ctx =
    u32_attr Attr.hcf_ip ctx.source_ip
    ∷ u8_attr Attr.hcf_ttl ctx.ttl
    ∷ u8_attr Attr.hcf_hc ctx.hc
    ∷ []

unfoldable pub hcf_build_log_msg : (W : Writer) → IpCtx → W.Buf → W.Buf × ℤ
hcf_build_log_msg W ctx skb = nla_build W (ctx_attrs ctx) skb

-- `goodsize` is the kernel's `NLMSG_GOODSIZE`.
unfoldable pub hcf_log_new_ip :
    (W : Writer) → Genl W → (goodsize source_ip ttl hc : ℕ) → Fate W.Buf × ℤ
hcf_log_new_ip W g goodsize source_ip ttl hc =
    lfw_make_multicast_msg W g Cmd.group_hcf Cmd.hcf
      (hcf_build_log_msg W (record { source_ip = source_ip; ttl = ttl; hc = hc })) goodsize
