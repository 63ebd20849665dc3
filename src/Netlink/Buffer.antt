-- ===== src/Netlink/Buffer.antt =====
-- Messages that are being written. The calls `nla_put`, `nla_nest_start`, `nla_nest_end` and
-- `nla_nest_cancel`, and `nla_parse`, are the kernel's and libnl's: parameters, with what their
-- documentation says as laws.
use librefw.Base.{ℕ, ◌≡◌, false, Option, none, some, List, [], ◌∷◌, ◌++◌, ◌==◌, if◌then◌else◌}
use librefw.Base.Int.{ℤ, pos, e_msgsize}
use librefw.Netlink.{Nla, Nest, Attribute, scalar, nest}

-- What was written: complete attributes, and the nested attribute that is open, if one is.
pub record Draft : Type 0 where
  pub complete : List Attribute
  pub opened : Option Nest

abbrev pub add : Nla → Draft → Draft
add a d = elim d.opened [
  | none ↦ record d { complete = d.complete ++ (scalar a ∷ []) }
  | some n ↦ record d { opened = some (record n { nested = n.nested ++ (a ∷ []) }) }
]

abbrev pub start : ℕ → Draft → Draft
start t d = record d { opened = some (record { nest_type = t; nested = [] }) }

abbrev pub close : Draft → Draft
close d = elim d.opened [
  | none ↦ d
  | some n ↦ record { complete = d.complete ++ (nest n ∷ []); opened = none }
]

abbrev pub cancel : Draft → Draft
cancel d = record { complete = d.complete; opened = none }

-- The buffer after a call, and whether there was room.
pub data Outcome (B : Type 0) : Type 0 where
  fits : B → Outcome B
  full : B → Outcome B

pub record Writer : Type 1 where
  pub Buf : Type 0
  pub draft : Buf → Draft
  pub nla_put : Nla → Buf → Outcome Buf
  pub nla_nest_start : ℕ → Buf → Option Buf
  pub nla_nest_end : Buf → Buf
  pub nla_nest_cancel : Buf → Buf

-- A call that finds no room changes nothing.
pub record IsLawful (W : Writer) : Type 0 where
  pub put-fits : (a : Nla) (b b' : W.Buf) → W.nla_put a b ≡ fits b' → W.draft b' ≡ add a (W.draft b)
  pub put-full : (a : Nla) (b b' : W.Buf) → W.nla_put a b ≡ full b' → W.draft b' ≡ W.draft b
  pub start-some :
      (t : ℕ) (b b' : W.Buf) → W.nla_nest_start t b ≡ some b' → W.draft b' ≡ start t (W.draft b)
  pub draft-end : (b : W.Buf) → W.draft (W.nla_nest_end b) ≡ close (W.draft b)
  pub draft-cancel : (b : W.Buf) → W.draft (W.nla_nest_cancel b) ≡ cancel (W.draft b)

-- `nla_put … || nla_put … || …`: the first that finds no room ends the chain.
unfoldable pub nla_put_all : (W : Writer) → List Nla → W.Buf → Outcome W.Buf
nla_put_all W [] b = fits b
nla_put_all W (a ∷ as') b = elim (W.nla_put a b) [
  | fits b' ↦ nla_put_all W as' b'
  | full b' ↦ full b'
]

-- A callback of this form: `if (nla_put … || …) return -EMSGSIZE; return 0;`
unfoldable pub nla_build : (W : Writer) → List Nla → W.Buf → W.Buf × ℤ
nla_build W as' skb = elim (nla_put_all W as' skb) [
  | fits skb' ↦ (skb', pos 0)
  | full skb' ↦ (skb', e_msgsize)
]

-- `nla_parse`: for each type the last attribute of it; all that is used of a nested attribute is
-- that it does not stand for one of another type.
pub record IsParse (nla_parse : List Attribute → ℕ → Option Nla) : Type 0 where
  pub parse-nil : (i : ℕ) → nla_parse [] i ≡ none
  pub parse-scalar :
      (as' : List Attribute) (a : Nla) (i : ℕ)
      → nla_parse (as' ++ (scalar a ∷ [])) i ≡ (if a.nla_type == i then some a else nla_parse as' i)
  pub parse-nest :
      (as' : List Attribute) (n : Nest) (i : ℕ)
      → (n.nest_type == i) ≡ false
      → nla_parse (as' ++ (nest n ∷ [])) i ≡ nla_parse as' i
