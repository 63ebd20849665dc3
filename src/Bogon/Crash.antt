-- ===== src/Bogon/Crash.antt =====
-- `lfw_bogon_set` on messages that it does not check: too many prefixes, or a
-- prefix that is too long.
use mathlib.Core.Path.{subst}
use librefw.Base.{
  ℕ, zero, suc, ◌+◌, ◌-◌, ◌≤◌, ◌<◌, ◌≡◌, refl, sym, ap, ◌∙◌, ◌⊎◌, inl, inr, Bool, true, false, ◌&&◌,
  ◌||◌, not, none, some, List, [], ◌∷◌, ◌++◌, arith, ◌==◌, Bool-cases, length,
}
use librefw.Mem.{Cache, IsAmple}
use librefw.Netlink.{Nest}
use librefw.Netlink.Attr
use librefw.Bogon.{
  IpPrefix, BgState, lfw_load_bg_tree, writes_prefix, fill_buffer, zeroed_prefixes, lfw_bogon_set,
}
use librefw.Bogon.Set.{decoded, fill_buffer-decoded}
use librefw.Bogon.Long.{has_long, load-none}

-- Does every prefix attribute have a field?
unfoldable pub all_write : List Nest → Bool
all_write [] = true
all_write (a ∷ as') =
    (not (a.nest_type == Attr.ip_prefix) || writes_prefix a.nested) && all_write as'

module _ (a : Nest) (as' : List Nest) where
  decoded-more :
      (a.nest_type == Attr.ip_prefix) ≡ true
      → length (decoded (a ∷ as')) ≡ suc (length (decoded as'))
  unfolding decoded
  decoded-more e = rw (e, decoded) refl

  decoded-same : (a.nest_type == Attr.ip_prefix) ≡ false → decoded (a ∷ as') ≡ decoded as'
  unfolding decoded
  decoded-same e = rw (e, decoded) refl

  fill-more :
      (p : IpPrefix) (buf : List IpPrefix)
      → (a.nest_type == Attr.ip_prefix) ≡ true
      → fill_buffer as' buf ≡ none
      → fill_buffer (a ∷ as') (p ∷ buf) ≡ none
  unfolding fill_buffer
  fill-more p buf e full = rw (e, full, fill_buffer) refl

  fill-same :
      (buf : List IpPrefix)
      → (a.nest_type == Attr.ip_prefix) ≡ false
      → fill_buffer (a ∷ as') buf ≡ fill_buffer as' buf
  unfolding fill_buffer
  fill-same [] e = rw (e, fill_buffer) refl
  fill-same (p ∷ buf) e = rw (e, fill_buffer) refl

  all_write-rest : all_write (a ∷ as') ≡ true → all_write as' ≡ true
  unfolding all_write
  all_write-rest h = ground (arith, h)

  fill-past :
      all_write (a ∷ as') ≡ true
      → (a.nest_type == Attr.ip_prefix) ≡ true
      → fill_buffer (a ∷ as') [] ≡ none
  unfolding fill_buffer all_write
  fill-past h e = ground (arith, h, e)

fill_buffer-overrun :
    (attrs : List Nest) (buf : List IpPrefix)
    → all_write attrs ≡ true
    → length buf < length (decoded attrs)
    → fill_buffer attrs buf ≡ none
unfolding decoded
fill_buffer-overrun [] buf h more = absurd (omega (arith, more))
fill_buffer-overrun (a ∷ as') [] h more = elim (Bool-cases (a.nest_type == Attr.ip_prefix)) [
  | inl yes_prefix ↦ fill-past a as' h yes_prefix
  | inr other ↦
      fill-same a as' [] other
      ∙ fill_buffer-overrun as' [] (all_write-rest a as' h)
          (subst (λ ps. 0 < length ps) (decoded-same a as' other) more)
]
fill_buffer-overrun (a ∷ as') (p ∷ buf) h more = elim (Bool-cases (a.nest_type == Attr.ip_prefix)) [
  | inl yes_prefix ↦ fill-more a as' p buf yes_prefix (
      fill_buffer-overrun as' buf (all_write-rest a as' h)
        (omega (arith, more, decoded-more a as' yes_prefix)))
  | inr other ↦
      fill-same a as' (p ∷ buf) other
      ∙ fill_buffer-overrun as' (p ∷ buf) (all_write-rest a as' h)
          (subst (λ ps. suc (length buf) < length ps) (decoded-same a as' other) more)
]

length-zeroed : (n : ℕ) → length (zeroed_prefixes n) ≡ n
unfolding zeroed_prefixes
length-zeroed zero = refl
length-zeroed (suc n) = ap suc (length-zeroed n)

set-overrun :
    (k : Cache ℕ) (num : ℕ) (attrs : List Nest) (st : BgState)
    → 0 < num
    → fill_buffer attrs (zeroed_prefixes num) ≡ none
    → lfw_bogon_set k true true num attrs st ≡ none
unfolding lfw_bogon_set
set-overrun k num attrs st h over =
    let some_prefix : (num == 0) ≡ false = ground arith in rw (some_prefix, over) refl

set-long :
    (k : Cache ℕ) (num : ℕ) (attrs : List Nest) (ps : List IpPrefix) (st : BgState)
    → 0 < num
    → fill_buffer attrs (zeroed_prefixes num) ≡ some ps
    → lfw_load_bg_tree k true ps st ≡ none
    → lfw_bogon_set k true true num attrs st ≡ none
unfolding lfw_bogon_set
set-long k num attrs ps st h filled bad =
    let some_prefix : (num == 0) ≡ false = ground arith in rw (some_prefix, filled, bad) refl

has_long-append : (ps qs : List IpPrefix) → has_long ps ≡ true → has_long (ps ++ qs) ≡ true
unfolding has_long
has_long-append [] qs h = cc
has_long-append (p ∷ ps) qs h = ground (arith, h, has_long-append ps qs)

-- A message that carries more prefixes than it announces, or else one of 32 bits or more
abbrev pub IsHarmful : ℕ → List Nest → Type 0
IsHarmful num attrs =
    ((all_write attrs ≡ true) × (num < length (decoded attrs)))
    ⊎ ((length (decoded attrs) ≤ num) × (has_long (decoded attrs) ≡ true))

-- With memory, a message that announces at least one prefix makes the handler run into undefined
-- behaviour, whatever the state is, if it carries more prefixes than it announces, each with a field, or if it carries no more and one of them has
-- 32 bits or more.
pub lfw_bogon_set-undefined :
    (k : Cache ℕ) (num : ℕ) (attrs : List Nest) (st : BgState)
    → IsAmple k
    → 0 < num
    → IsHarmful num attrs
    → lfw_bogon_set k true true num attrs st ≡ none
lfw_bogon_set-undefined k num attrs st ample h (inl (write, more)) =
    set-overrun k num attrs st h (
      fill_buffer-overrun attrs (zeroed_prefixes num) write
        (omega (arith, more, length-zeroed num)))
lfw_bogon_set-undefined k num attrs st ample h (inr (fits, long)) =
    let e = num - length (decoded attrs) in
    let total : length (decoded attrs) + e ≡ num = omega (arith, fits) in
    let ps = decoded attrs ++ zeroed_prefixes e in
    set-long k num attrs ps st h
      (ap (λ n. fill_buffer attrs (zeroed_prefixes n)) (sym total) ∙ fill_buffer-decoded attrs e)
      (load-none k ps st ample (has_long-append (decoded attrs) (zeroed_prefixes e) long))
