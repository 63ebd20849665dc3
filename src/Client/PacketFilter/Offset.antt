-- ===== src/Client/PacketFilter/Offset.antt =====
-- src/nl/packet_filter_log.cpp: where the loop of the callback begins. It walks from `nlmsg_data`, which
-- is the header of generic netlink and not its attributes. The bytes of attributes and libnl's walk
-- are parameters.
use librefw.Base.{
  ℕ, ◌+◌, ◌*◌, ◌/◌, ◌≤◌, ◌<◌, ◌≡◌, ap, List, [], ◌∷◌, map, length, ◌==◌, if◌then◌else◌, arith,
}
use librefw.Netlink.{Nla, Attribute, scalar, nest}
use librefw.Netlink.Cmd
use librefw.PacketLog.{PktFilterEvent}
use librefw.PacketLog.Sent.{packet_nest}
use librefw.Client.PacketFilter.{PacketFilterEvent, handle_attributes}

-- The bytes that a list of attributes is in a message, and the attributes that `nla_for_each_attr`
-- finds in bytes
pub record Wire : Type 0 where
  pub encode : List Attribute → List ℕ
  pub nla_for_each_attr : List ℕ → List Attribute

-- The header and the payload up to the next multiple of four, with a padding attribute before a
-- 64-bit number where the machine wants one
unfoldable pub nla_size : Nla → ℕ
nla_size a = let n = 4 + 4 * ((a.nla_len + 3) / 4) in if a.nla_len == 8 then n + 4 else n

unfoldable pub nlas_size : List Nla → ℕ
nlas_size [] = 0
nlas_size (a ∷ as') = nla_size a + nlas_size as'

unfoldable pub attrs_size : List Attribute → ℕ
attrs_size [] = 0
attrs_size (scalar a ∷ as') = nla_size a + attrs_size as'
attrs_size (nest n ∷ as') = 4 + nlas_size n.nested + attrs_size as'

-- Attributes take at most these sizes. The walk begins with two bytes of a length, the lower first,
-- and two of a type; it ends where the length is more than what is left.
pub record IsWire (w : Wire) : Type 0 where
  pub encoded : (as' : List Attribute) → length (w.encode as') ≤ attrs_size as'
  pub too_long :
      (a b c d : ℕ) (rest : List ℕ)
      → 4 + length rest < a + 256 * b
      → w.nla_for_each_attr (a ∷ b ∷ c ∷ d ∷ rest) ≡ []

-- `nlmsg_data`: the command, the version and two reserved bytes, and then the attributes
abbrev pub nlmsg_data : Wire → ℕ → List Attribute → List ℕ
nlmsg_data w cmd attrs = cmd ∷ 1 ∷ 0 ∷ 0 ∷ w.encode attrs

-- The callback on a message of the packet log
unfoldable pub listener_callback : Wire → (boot : ℕ) → List Attribute → List PacketFilterEvent
listener_callback w boot attrs =
    handle_attributes boot (w.nla_for_each_attr (nlmsg_data w Cmd.pkt_filter_log attrs))

packet-size :
    (p : ℕ × PktFilterEvent) (as' : List Attribute)
    → attrs_size (packet_nest p ∷ as') ≡ 76 + attrs_size as'
unfolding attrs_size nlas_size nla_size
packet-size p as' = omega arith

packets-size : (ps : List (ℕ × PktFilterEvent)) → attrs_size (map packet_nest ps) ≡ 76 * length ps
unfolding attrs_size
packets-size [] = omega arith
packets-size (p ∷ ps) = omega (arith, packet-size p (map packet_nest ps), packets-size ps)

-- The listener prints nothing for a message with at most three packets: the walk reads the command and
-- the version as a length of 262, which is more than the message has. The walk and the bytes keep the
-- laws of `IsWire`.
pub listener_callback-silent :
    (w : Wire) (boot : ℕ) (ps : List (ℕ × PktFilterEvent))
    → IsWire w
    → length ps ≤ 3
    → listener_callback w boot (map packet_nest ps) ≡ []
unfolding listener_callback handle_attributes
listener_callback-silent w boot ps law few = ap (handle_attributes boot) (
    law.too_long Cmd.pkt_filter_log 1 0 0 (w.encode (map packet_nest ps))
      (omega (arith, law.encoded (map packet_nest ps), packets-size ps)))
