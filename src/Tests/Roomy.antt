-- ===== src/Tests/Roomy.antt =====
-- Netlink calls with room for everything, and a parser of attributes.
use librefw.Base.{ℕ, ◌≡◌, refl, false, Option, none, some, List, [], ◌∷◌, ◌++◌, ◌==◌, if◌then◌else◌}
use librefw.Base.Int.{pos}
use librefw.Netlink.{Nla, Nest, Attribute, scalar, nest}
use librefw.Netlink.Buffer.{
  Draft, add, start, close, cancel, Outcome, fits, Writer, IsLawful, IsParse,
}
use librefw.Netlink.Written.{drafted}
use librefw.Netlink.Multicast.{Genl}
use librefw.Client.{Socket}

abbrev pub roomy : Writer
roomy = record {
  Buf = Draft;
  draft = λ d. d;
  nla_put = λ a d. fits (add a d);
  nla_nest_start = λ t d. some (start t d);
  nla_nest_end = close;
  nla_nest_cancel = cancel;
}

same_fits : (d d' : Draft) → ◌≡◌ {A = Outcome Draft} (fits d) (fits d') → d' ≡ d
same_fits d d' e = cc

abbrev pub same_some : (d d' : Draft) → ◌≡◌ {A = Option Draft} (some d) (some d') → d' ≡ d
same_some d d' e = cc

pub roomy-IsLawful : IsLawful roomy
roomy-IsLawful = record {
  put-fits = λ a b b' e. same_fits (add a b) b' e;
  put-full = λ a b b' e. cc e;
  start-some = λ t b b' e. same_some (start t b) b' e;
  draft-end = λ b. refl;
  draft-cancel = λ b. refl;
}

abbrev pub empty_draft : Draft
empty_draft = drafted [] none

abbrev pub genl : Genl roomy
genl = record {
  genlmsg_new = λ size. some empty_draft;
  genlmsg_put = λ cmd d. some empty_draft;
  genlmsg_multicast = λ group d. pos 0;
  begins_empty = λ size cmd b b' e e'. same_some empty_draft b' e';
}

abbrev pub socket : Socket roomy
socket = record {
  make_message = λ cmd. some empty_draft;
  nl_send_auto = λ d. pos 0;
  begins_empty = λ cmd b e. same_some empty_draft b e;
}

-- The last attribute of a type that no attribute of another kind follows
unfoldable pub last_of : Option Nla → List Attribute → ℕ → Option Nla
last_of o [] i = o
last_of o (scalar a ∷ as') i = last_of (if a.nla_type == i then some a else o) as' i
last_of o (nest n ∷ as') i = last_of (if n.nest_type == i then none else o) as' i

last-scalar :
    (o : Option Nla) (as' : List Attribute) (a : Nla) (i : ℕ)
    → last_of o (as' ++ (scalar a ∷ [])) i ≡ (if a.nla_type == i then some a else last_of o as' i)
unfolding last_of
last-scalar o [] a i = refl
last-scalar o (scalar b ∷ as') a i = last-scalar (if b.nla_type == i then some b else o) as' a i
last-scalar o (nest n ∷ as') a i = last-scalar (if n.nest_type == i then none else o) as' a i

last-nest :
    (o : Option Nla) (as' : List Attribute) (n : Nest) (i : ℕ)
    → (n.nest_type == i) ≡ false
    → last_of o (as' ++ (nest n ∷ [])) i ≡ last_of o as' i
unfolding last_of
last-nest o [] n i e = rw e refl
last-nest o (scalar b ∷ as') n i e = last-nest (if b.nla_type == i then some b else o) as' n i e
last-nest o (nest m ∷ as') n i e = last-nest (if m.nest_type == i then none else o) as' n i e

abbrev pub parse : List Attribute → ℕ → Option Nla
parse = last_of none

pub parse-IsParse : IsParse parse
unfolding last_of
parse-IsParse = record {
  parse-nil = λ i. refl;
  parse-scalar = last-scalar none;
  parse-nest = last-nest none;
}
