-- ===== src/Log.antt =====
-- kernel/src/log.c: messages of the kernel module for the client.
pub mod Heard
use librefw.Base.{ℕ, Bool, true, false, List, [], ◌∷◌, ltb, take, length}
use librefw.Base.Int.{ℤ, e_nomem}
use librefw.Netlink.{Nla, u8_attr, u64_attr, string_attr}
use librefw.Netlink.Attr
use librefw.Netlink.Cmd
use librefw.Netlink.Buffer.{Writer, nla_build}
use librefw.Netlink.Multicast.{Genl, Fate, unallocated, lfw_make_multicast_msg}

-- `struct log_ctx`, the message as its bytes
pub record LogCtx : Type 0 where
  pub level : ℕ
  pub timestamp : ℕ
  pub msg : List ℕ

abbrev pub log_attrs : LogCtx → List Nla
log_attrs ctx =
    u8_attr Attr.log_lvl ctx.level
    ∷ u64_attr Attr.log_ts ctx.timestamp
    ∷ string_attr Attr.log_msg ctx.msg
    ∷ []

unfoldable pub lfw_build_log_msg : (W : Writer) → LogCtx → W.Buf → W.Buf × ℤ
lfw_build_log_msg W ctx skb = nla_build W (log_attrs ctx) skb

-- `text`, without a NUL, is what the format and its arguments come to: `vsnprintf` keeps the first 1023 bytes of it and
-- returns its length. What became of the message, the code, and whether the code warns that it is
-- cut.
unfoldable pub lfw_log :
    (W : Writer)
    → Genl W
    → (goodsize : ℕ) (allocated : Bool) → (level tv_sec : ℕ) → List ℕ
    → Fate W.Buf × ℤ × Bool
lfw_log W g goodsize false level tv_sec text = (unallocated, e_nomem, false)
lfw_log W g goodsize true level tv_sec text =
    let (fate, ret) =
      lfw_make_multicast_msg W g Cmd.group_log Cmd.log
        (lfw_build_log_msg W (record { level = level; timestamp = tv_sec; msg = take 1023 text }))
        goodsize in
    (fate, ret, ltb 1024 (length text))
