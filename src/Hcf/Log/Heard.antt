-- ===== src/Hcf/Log/Heard.antt =====
-- The client hears of a new address what the kernel module learnt.
use librefw.Base.{ℕ, ◌^◌, ◌<◌, ◌≡◌, refl, sym, ap, ◌∙◌, Option, some, List, map, arith}
use librefw.Base.Int.{ℤ}
use librefw.Netlink.{Nla, Attribute, scalar, nla_get_u32, nla_get_u8, u8_attr, u32_attr}
use librefw.Netlink.Attr
use librefw.Netlink.Cmd
use librefw.Netlink.Buffer.{Draft, Writer, IsLawful, IsParse}
use librefw.Netlink.Written.{build-scalars}
use librefw.Netlink.Multicast.{Genl, sent}
use librefw.Netlink.Parsed.{parse-three}
use librefw.Netlink.Delivered.{multicast-Delivers}
use librefw.Hcf.{IpCtx}
use librefw.Hcf.Log.{ctx_attrs, hcf_build_log_msg, hcf_log_new_ip}
use librefw.Client.{nl_ok}
use librefw.Client.Hcf.{Row, on_message_received}

on_message_received-found :
    (tb : ℕ → Option Nla) (a b c : Nla)
    → tb Attr.hcf_ip ≡ some a
    → tb Attr.hcf_ttl ≡ some b
    → tb Attr.hcf_hc ≡ some c
    → on_message_received tb
      ≡ some (record { ip_addr = nla_get_u32 a; ttl = nla_get_u8 b; hc = nla_get_u8 c }, nl_ok)
unfolding on_message_received
on_message_received-found tb a b c e e' e'' = rw (e, e', e'', on_message_received) refl

row-eq :
    (a a' b b' c c' : ℕ)
    → a ≡ a'
    → b ≡ b'
    → c ≡ c'
    → ◌≡◌ {A = Row}
        (record { ip_addr = a; ttl = b; hc = c })
        (record { ip_addr = a'; ttl = b'; hc = c' })
row-eq a a' b b' c c' e e' e'' = cc

received :
    (nla_parse : List Attribute → ℕ → Option Nla) (ctx : IpCtx)
    → IsParse nla_parse
    → ctx.source_ip < 2 ^ 32
    → ctx.ttl < 2 ^ 8
    → ctx.hc < 2 ^ 8
    → on_message_received (nla_parse (map scalar (ctx_attrs ctx)))
      ≡ some (record { ip_addr = ctx.source_ip; ttl = ctx.ttl; hc = ctx.hc }, nl_ok)
received nla_parse ctx h small small' small'' =
    let a = u32_attr Attr.hcf_ip ctx.source_ip in
    let b = u8_attr Attr.hcf_ttl ctx.ttl in
    let c = u8_attr Attr.hcf_hc ctx.hc in
    on_message_received-found (nla_parse (map scalar (ctx_attrs ctx))) a b c
      (parse-three nla_parse a b c Attr.hcf_ip h) (parse-three nla_parse a b c Attr.hcf_ttl h)
      (parse-three nla_parse a b c Attr.hcf_hc h)
    ∙ ap (λ (r : Row). some (r, nl_ok))
        (row-eq _ _ _ _ _ _ (omega arith) (omega arith) (omega arith))

-- If the kernel module sends the news of an address, the client's listener hands the database a row
-- with this address, TTL and hop count (an address is below 2 ^ 32, the others are bytes). The
-- kernel's and libnl's netlink calls keep the laws of `IsLawful`, `Genl` and `IsParse`.
pub hcf_log_new_ip-received :
    (W : Writer) (g : Genl W) (nla_parse : List Attribute → ℕ → Option Nla)
    (goodsize source_ip ttl hc grp : ℕ) (b : W.Buf) (ret : ℤ)
    → IsLawful W
    → IsParse nla_parse
    → source_ip < 2 ^ 32
    → ttl < 2 ^ 8
    → hc < 2 ^ 8
    → hcf_log_new_ip W g goodsize source_ip ttl hc ≡ (sent grp b, ret)
    → (grp ≡ Cmd.group_hcf)
      × (on_message_received (nla_parse (W.draft b).complete)
          ≡ some (record { ip_addr = source_ip; ttl = ttl; hc = hc }, nl_ok))
unfolding hcf_log_new_ip hcf_build_log_msg
hcf_log_new_ip-received W g nla_parse goodsize source_ip ttl hc grp b ret law h small small' small''
      run =
    let ctx : IpCtx = record { source_ip = source_ip; ttl = ttl; hc = hc } in
    let d =
      multicast-Delivers W g Cmd.group_hcf Cmd.hcf (hcf_build_log_msg W ctx) goodsize grp b ret
        run in
    (
      d.same_group,
      ap (λ x. on_message_received (nla_parse x))
            (ap (λ x. (W.draft x).complete) (sym d.wrote)
              ∙ ap (λ (x : Draft). x.complete)
                  (build-scalars W law (ctx_attrs ctx) d.blank_msg d.is_blank d.agreed))
          ∙ received nla_parse ctx h small small' small'',
    )
