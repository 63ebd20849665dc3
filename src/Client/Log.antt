-- ===== src/Client/Log.antt =====
-- src/nl/log.cpp: the listener that prints the kernel module's messages.
use librefw.Base.{ℕ, Option, none, some, List, ltb, if◌then◌else◌}
use librefw.Netlink.{Nla, nla_get_u8, nla_get_u64, nla_get_string}
use librefw.Netlink.Attr
use librefw.Client.{Callback, nl_ok, nl_skip}

-- What is printed: the level by its index in the list of eight names, the time and the message.
pub record Printed : Type 0 where
  pub level : ℕ
  pub timestamp : ℕ
  pub message : List ℕ

-- What is printed, and the return code; the outer `none` is the read of an attribute that the message
-- lacks, or of a name behind the eighth.
unfoldable pub log_message_received : (ℕ → Option Nla) → Option (Option Printed × Callback)
log_message_received tb = elim (tb Attr.log_msg) [
  | none ↦ some (none, nl_skip)
  | some msg ↦ elim (tb Attr.log_ts) [
    | none ↦ none
    | some ts ↦ elim (tb Attr.log_lvl) [
      | none ↦ none
      | some lvl ↦
          if ltb (nla_get_u8 lvl) 8
          then some (
            some (record {
              level = nla_get_u8 lvl;
              timestamp = nla_get_u64 ts;
              message = nla_get_string msg;
            }),
            nl_ok,
          )
          else none
    ]
  ]
]
