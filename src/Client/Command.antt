-- ===== src/Client/Command.antt =====
-- src/nl/command.cpp: the commands that send a bogon list and set or clear the flag.
pub mod Taken
pub mod Filtered
pub mod Flagged
use librefw.Base.{ℕ, ◌+◌, Bool, true, false, Option, none, some, List, [], ◌∷◌}
use librefw.Base.Int.{ℤ}
use librefw.Netlink.{Nla, u8_attr, u32_attr, flag_attr}
use librefw.Netlink.Attr
use librefw.Netlink.Cmd
use librefw.Netlink.Buffer.{Writer, fits, full, nla_put_all}
use librefw.Client.{Socket, Sending, thrown, crashed, given_up, sent}
use librefw.Client.Text.{Text, before_slash, after_slash, stoi, to_u16}

-- The loop over the lines ends at the end of the file or at the first that finds no room, with the
-- number of lines packed; or `std::stoi` throws; or the message has no room for a nested attribute,
-- whose NULL is used.
pub data Lines (B : Type 0) : Type 0 where
  lines : B → ℕ → Lines B
  throws : Lines B
  null_used : Lines B

-- `inet_pton` is the C library's, `none` where the text is no address; then `s_addr` keeps the value
-- that was in it, `stale`.
unfoldable pub s_addr : (Text → Option ℕ) → ℕ → Text → ℕ
s_addr inet_pton stale text = elim (inet_pton text) [ none ↦ stale | some a ↦ a ]

abbrev pub line_attrs : ℕ → ℤ → List Nla
line_attrs addr len = u32_attr Attr.n_ip_addr addr ∷ u8_attr Attr.n_ip_prefix_len (to_u16 len) ∷ []

module _ (W : Writer) (inet_pton : Text → Option ℕ) (stale : ℕ) where
  unfoldable pub pack_lines : List Text → W.Buf → ℕ → Lines W.Buf
  pack_lines [] msg num_lines = lines msg num_lines
  pack_lines (line ∷ rest) msg num_lines = elim (stoi (after_slash line)) [
    | none ↦ throws
    | some ip_prefix_len ↦ elim (W.nla_nest_start Attr.ip_prefix msg) [
      | none ↦ null_used
      | some msg' ↦
          elim (nla_put_all W
            (line_attrs (s_addr inet_pton stale (before_slash line)) ip_prefix_len) msg') [
              | full msg'' ↦ lines (W.nla_nest_cancel msg'') num_lines
              | fits msg'' ↦ pack_lines rest (W.nla_nest_end msg'') (num_lines + 1)
            ]
    ]
  ]

  -- The count, without a test whether it found room
  unfoldable pub put_count : ℕ → W.Buf → W.Buf
  put_count num_lines msg = elim (W.nla_put (u32_attr Attr.num_ip_prefix num_lines) msg) [
    | fits msg' ↦ msg'
    | full msg' ↦ msg'
  ]

  -- `file` is the lines of the file, if it could be opened.
  unfoldable pub send_bogon_list : Socket W → Option (List Text) → Sending W.Buf
  send_bogon_list sock none = given_up
  send_bogon_list sock (some file) = elim (sock.make_message Cmd.set_bogon) [
    | none ↦ thrown
    | some msg ↦ elim (pack_lines file msg 0) [
      | throws ↦ thrown
      | null_used ↦ crashed
      | lines msg' num_lines ↦
          sent (put_count num_lines msg') (sock.nl_send_auto (put_count num_lines msg'))
    ]
  ]

unfoldable pub set_under_attack : (W : Writer) → Socket W → Bool → Sending W.Buf
set_under_attack W sock under_attack = elim (sock.make_message Cmd.set_under_attack) [
  | none ↦ thrown
  | some msg ↦ elim under_attack [
    | false ↦ sent msg (sock.nl_send_auto msg)
    | true ↦ elim (W.nla_put (flag_attr Attr.under_attack) msg) [
      | full msg' ↦ given_up
      | fits msg' ↦ sent msg' (sock.nl_send_auto msg')
    ]
  ]
]
