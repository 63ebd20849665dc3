-- ===== src/Netlink.antt =====
-- kernel/include/nl_ops.h: the attribute numbers of the generic netlink family, and the messages
-- that the kernel hands to the handlers. The kernel's netlink code splits a message into
-- attributes; a model message is the list that it gives.
pub mod Attr
pub mod Cmd
pub mod Family
pub mod Policy
pub mod Buffer
pub mod Written
pub mod Parsed
pub mod Multicast
pub mod Delivered
use librefw.Base.{ℕ, zero, suc, ◌+◌, ◌*◌, ◌/◌, ◌%◌, ◌^◌, List, [], ◌∷◌, ◌==◌, if◌then◌else◌, length}

-- An attribute without children: its type, the length of its payload in bytes, and the number that
-- these bytes are, the lowest first.
pub record Nla : Type 0 where
  pub nla_type : ℕ
  pub nla_len : ℕ
  pub word : ℕ

-- A nested attribute of the message, with the attributes inside.
pub record Nest : Type 0 where
  pub nest_type : ℕ
  pub nested : List Nla

-- `nla_get_u32` and `nla_get_in_addr`, `nla_get_u8`, `nla_get_u16` and `nla_get_u64` on a
-- little-endian machine.
abbrev pub nla_get_u32 : Nla → ℕ
nla_get_u32 a = a.word % 2 ^ 32

abbrev pub nla_get_u8 : Nla → ℕ
nla_get_u8 a = a.word % 2 ^ 8

abbrev pub nla_get_u16 : Nla → ℕ
nla_get_u16 a = a.word % 2 ^ 16

abbrev pub nla_get_u64 : Nla → ℕ
nla_get_u64 a = a.word % 2 ^ 64

-- The attribute that `nla_put_u8` stores, `nla_put_u16` and `nla_put_be16`, `nla_put_u32` and
-- `nla_put_be32`, `nla_put_u64_64bit`, `nla_put_flag`.
abbrev pub u8_attr : ℕ → ℕ → Nla
u8_attr t v = record { nla_type = t; nla_len = 1; word = v % 2 ^ 8 }

abbrev pub u16_attr : ℕ → ℕ → Nla
u16_attr t v = record { nla_type = t; nla_len = 2; word = v % 2 ^ 16 }

abbrev pub u32_attr : ℕ → ℕ → Nla
u32_attr t v = record { nla_type = t; nla_len = 4; word = v % 2 ^ 32 }

abbrev pub u64_attr : ℕ → ℕ → Nla
u64_attr t v = record { nla_type = t; nla_len = 8; word = v % 2 ^ 64 }

abbrev pub flag_attr : ℕ → Nla
flag_attr t = record { nla_type = t; nla_len = 0; word = 0 }

-- The attribute that `nla_put_string` stores: the bytes of a text, and a NUL.
abbrev pub text_word : List ℕ → ℕ
text_word [] = 0
text_word (c ∷ cs) = c + 2 ^ 8 * text_word cs

abbrev pub string_attr : ℕ → List ℕ → Nla
string_attr t text = record { nla_type = t; nla_len = suc (length text); word = text_word text }

-- The bytes of `word` up to the first NUL, of `len` bytes.
unfoldable pub text_from : ℕ → ℕ → List ℕ
text_from zero word = []
text_from (suc len) word =
    let rest = text_from len (word / 2 ^ 8) in if word % 2 ^ 8 == 0 then [] else word % 2 ^ 8 ∷ rest

abbrev pub nla_get_string : Nla → List ℕ
nla_get_string a = text_from a.nla_len a.word

-- An attribute of a message.
pub data Attribute : Type 0 where
  scalar : Nla → Attribute
  nest : Nest → Attribute

-- The nested attributes, which the handlers walk.
abbrev pub nests : List Attribute → List Nest
nests [] = []
nests (scalar a ∷ as') = nests as'
nests (nest n ∷ as') = n ∷ nests as'
