-- ===== src/Bogon/Set.antt =====
-- `lfw_bogon_set`: the list that a netlink message carries.
use librefw.Base.{
  ℕ, zero, suc, ◌+◌, ◌^◌, ◌<◌, ◌≡◌, refl, ap, ◌∙◌, inl, inr, true, false, ◌||◌, some, List, [], ◌∷◌,
  ◌++◌, arith, ◌==◌, Bool-cases, ltb, if◌then◌else◌, length, All, All-append,
}
use librefw.Base.Int.{ℤ, pos, is_pos}
use librefw.Mem.{ok, Cache, IsAmple}
use librefw.Mem.Tree.{Tree}
use librefw.Netlink.{Nest}
use librefw.Netlink.Attr
use librefw.Word.{in4_get_masked}
use librefw.Bogon.{
  IpPrefix, BgState, lfw_load_bg_tree, lfw_lookup_bg_tree, set_prefix, fill_buffer, zeroed_prefixes,
  lfw_bogon_set,
}
use librefw.Bogon.Load.{IsPrefix, IsBogon}
use librefw.Bogon.Cover.{covers, covered, lookup-covered}

-- The prefixes that the message carries: one for each prefix attribute, from the last address and the
-- last length inside, 0 where there is none.
unfoldable pub decoded : List Nest → List IpPrefix
decoded [] = []
decoded (a ∷ as') =
    let rest = decoded as' in
    if a.nest_type == Attr.ip_prefix
    then set_prefix a.nested (record { ip_prefix = 0; ip_prefix_len = 0 }) ∷ rest
    else rest

-- A buffer of `e` entries too many: they stay zero.
pub fill_buffer-decoded :
    (attrs : List Nest) (e : ℕ)
    → fill_buffer attrs (zeroed_prefixes (length (decoded attrs) + e))
      ≡ some (decoded attrs ++ zeroed_prefixes e)
unfolding fill_buffer decoded zeroed_prefixes
fill_buffer-decoded [] e = let e' : 0 + e ≡ e = omega arith in ap (λ n. some (zeroed_prefixes n)) e'
fill_buffer-decoded (a ∷ as') e = elim (Bool-cases (a.nest_type == Attr.ip_prefix)) [
  | inl yes_prefix ↦
      let shift : suc (length (decoded as')) + e ≡ suc (length (decoded as') + e) = omega arith in
      rw yes_prefix (
        ap (λ n. fill_buffer (a ∷ as') (zeroed_prefixes n)) shift
        ∙ ground (arith, yes_prefix, fill_buffer-decoded as' e))
  | inr other ↦ rw other (ground (arith, fill_buffer-decoded as' e))
]

covered-zeroed :
    (ip : ℕ) (ps : List IpPrefix) (e : ℕ)
    → covered ip (ps ++ zeroed_prefixes e) ≡ (covered ip ps || ltb 0 e)
unfolding covered zeroed_prefixes covers in4_get_masked
covered-zeroed ip [] zero = refl
covered-zeroed ip [] (suc e) = ground arith
covered-zeroed ip (p ∷ ps) e = ground (arith, covered-zeroed ip ps e)

pub zeroed-IsPrefix : (e : ℕ) → All IsPrefix (zeroed_prefixes e)
unfolding zeroed_prefixes
zeroed-IsPrefix zero = tt
zeroed-IsPrefix (suc e) = (omega arith, zeroed-IsPrefix e)

pub lfw_bogon_set-step :
    (k : Cache ℕ) (num : ℕ) (attrs : List Nest) (ps : List IpPrefix) (st st' : BgState)
    → 0 < num
    → fill_buffer attrs (zeroed_prefixes num) ≡ some ps
    → lfw_load_bg_tree k true ps st ≡ some st'
    → lfw_bogon_set k true true num attrs st ≡ some (st', pos 0)
unfolding lfw_bogon_set
lfw_bogon_set-step k num attrs ps st st' h filled loads =
    let some_prefix : (num == 0) ≡ false = ground arith in rw (some_prefix, filled, loads) refl

-- With memory, a message that announces at least one prefix, and at least as many as it carries,
-- each of fewer than 32 bits, is answered with 0. Afterwards `lfw_lookup_bg_tree` is positive for
-- exactly the addresses below 2 ^ 32 that agree with a prefix of the message on its masked part, but for
-- all addresses if the message announces more prefixes than it carries.
pub lfw_bogon_set-covered :
    (k : Cache ℕ) (attrs : List Nest) (e : ℕ) (st : BgState) (t : Tree ℕ) (ip : ℕ)
    → IsAmple k
    → 0 < length (decoded attrs) + e
    → All IsPrefix (decoded attrs)
    → IsBogon st t
    → ip < 2 ^ 32
    → (st' : BgState) × (v : ℤ) × (lfw_bogon_set k true true (length (decoded attrs) + e) attrs st
        ≡ some (st', pos 0))
      × (lfw_lookup_bg_tree ip st' ≡ ok v st'.mem)
      × (is_pos v ≡ (covered ip (decoded attrs) || ltb 0 e))
lfw_bogon_set-covered k attrs e st t ip ample h valid held small =
    let ps = decoded attrs ++ zeroed_prefixes e in
    let (st', v, run, answer, is) =
      lookup-covered k ps st t ip ample
        (All-append IsPrefix (decoded attrs) (zeroed_prefixes e) valid (zeroed-IsPrefix e)) held
        small in
    (
      st',
      v,
      lfw_bogon_set-step k (length (decoded attrs) + e) attrs ps st st' h
          (fill_buffer-decoded attrs e) run,
      answer,
      is ∙ covered-zeroed ip (decoded attrs) e,
    )
