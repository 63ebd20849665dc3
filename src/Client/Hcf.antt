-- ===== src/Client/Hcf.antt =====
-- src/nl/hcf.cpp: the listener that keeps learnt addresses, and the command that sends them back.
pub mod Restored
pub mod Kept
use librefw.Base.{ℕ, ◌%◌, ◌^◌, Option, none, some, List, [], ◌∷◌}
use librefw.Base.Int.{ℤ}
use librefw.Netlink.{Nla, nla_get_u32, nla_get_u8, u8_attr}
use librefw.Netlink.Attr
use librefw.Netlink.Cmd
use librefw.Netlink.Buffer.{Writer, fits, full, nla_put_all}
use librefw.Client.{
  Socket, Sending, thrown, crashed, given_up, sent, Packed, packed, stopped, null_used, Callback,
  nl_ok,
}

-- A row of the table `hcf_ipv4_history`: `ip_addr` is the number that its four bytes are, the
-- lowest first. (The column `ip_addr_str` is a rendering of it that no code reads.)
pub record Row : Type 0 where
  pub ip_addr : ℕ
  pub ttl : ℕ
  pub hc : ℕ

-- The row that is handed to the database, and the return code; `none` is the read of an attribute that
-- the message lacks. An exception of the database is only printed.
unfoldable pub on_message_received : (ℕ → Option Nla) → Option (Row × Callback)
on_message_received tb = elim (tb Attr.hcf_ip) [
  | none ↦ none
  | some source_ip ↦ elim (tb Attr.hcf_ttl) [
    | none ↦ none
    | some ttl ↦ elim (tb Attr.hcf_hc) [
      | none ↦ none
      | some hc ↦ some (
        record { ip_addr = nla_get_u32 source_ip; ttl = nla_get_u8 ttl; hc = nla_get_u8 hc },
        nl_ok,
      )
    ]
  ]
]

-- The attributes of one row
abbrev pub row_attrs : Row → List Nla
row_attrs row =
    record { nla_type = Attr.hcf_history_ip; nla_len = 4; word = row.ip_addr % 2 ^ 32 }
    ∷ u8_attr Attr.hcf_history_hc row.hc
    ∷ u8_attr Attr.hcf_history_ttl row.ttl
    ∷ []

unfoldable pub pack_rows : (W : Writer) → List Row → W.Buf → Packed W.Buf
pack_rows W [] msg = packed msg
pack_rows W (row ∷ rows) msg = elim (W.nla_nest_start Attr.hcf_history msg) [
  | none ↦ null_used
  | some msg' ↦ elim (nla_put_all W (row_attrs row) msg') [
    | full msg'' ↦ stopped (W.nla_nest_cancel msg'')
    | fits msg'' ↦ pack_rows W rows (W.nla_nest_end msg'')
  ]
]

-- `rows` is what the database holds.
unfoldable pub set_ip_history : (W : Writer) → Socket W → List Row → Sending W.Buf
set_ip_history W sock rows = elim (sock.make_message Cmd.set_hcf_history) [
  | none ↦ thrown
  | some msg ↦ elim (pack_rows W rows msg) [
    | packed msg' ↦ sent msg' (sock.nl_send_auto msg')
    | stopped msg' ↦ given_up
    | null_used ↦ crashed
  ]
]
