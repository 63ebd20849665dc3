-- ===== src/Netlink/Parsed.antt =====
-- What `nla_parse` makes of a message with three attributes.
use librefw.Base.{ℕ, ◌≡◌, refl, Option, none, some, List, [], ◌∷◌, ◌==◌, if◌then◌else◌}
use librefw.Netlink.{Nla, Attribute, scalar}
use librefw.Netlink.Buffer.{IsParse}

-- What the table holds for each of the three attributes
pub parse-three :
    (nla_parse : List Attribute → ℕ → Option Nla) (a b c : Nla) (i : ℕ)
    → IsParse nla_parse
    → nla_parse (scalar a ∷ scalar b ∷ scalar c ∷ []) i ≡ (
        if c.nla_type == i
        then some c
        else if b.nla_type == i
        then some b
        else if a.nla_type == i
        then some a
        else none)
parse-three nla_parse a b c i h =
    rw
      (
        h.parse-scalar (scalar a ∷ scalar b ∷ []) c i,
        h.parse-scalar (scalar a ∷ []) b i,
        h.parse-scalar [] a i,
        h.parse-nil i,
      )
      refl
