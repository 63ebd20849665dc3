-- ===== src/Commands/Admitted.antt =====
-- How the handler of a bogon list ends on a list of announced prefixes.

use librefw.Base.{
  ℕ, zero, suc, ◌+◌, ◌-◌, ◌≤◌, ◌≡◌, refl, sym, ap, ◌∙◌, Bool, true, false, some, List, ◌++◌, arith,
  ◌==◌, length, All, All-append,
}
use librefw.Base.Int.{ℤ, pos, e_inval, e_nomem}
use librefw.Mem.{Cache, IsAmple}
use librefw.Mem.Tree.{Tree}
use librefw.Netlink.{Nest}
use librefw.Bogon.{BgState, IpPrefix, fill_buffer, zeroed_prefixes, lfw_load_bg_tree, lfw_bogon_set}
use librefw.Bogon.Load.{IsPrefix}
use librefw.Bogon.Waiting.{IsBacked, load-IsBacked}
use librefw.Bogon.Set.{decoded, fill_buffer-decoded, zeroed-IsPrefix, lfw_bogon_set-step}

-- The prefixes have fewer than 32 bits, and are not more than announced.
abbrev pub IsAnnounced : ℕ → List Nest → Type 0
IsAnnounced num attrs = All IsPrefix (decoded attrs) × (length (decoded attrs) ≤ num)

module _ (k : Cache ℕ) (ample : IsAmple k) (attrs : List Nest) (st : BgState) (t : Tree ℕ)
    (held : IsBacked st t) where
  -- How the handler of a list ends
  abbrev Ends : Bool → Bool → ℕ → Type 0
  Ends allocated tree_allocated num =
      (st' : BgState) × (ret : ℤ) × (t' : Tree ℕ) × (lfw_bogon_set k allocated tree_allocated num
          attrs st
        ≡ some (st', ret))
      × IsBacked st' t'

  none-Ends : (allocated tree_allocated : Bool) → Ends allocated tree_allocated 0
  unfolding lfw_bogon_set
  none-Ends allocated tree_allocated = (st, e_inval, t, refl, held)

  no_buffer-Ends : (tree_allocated : Bool) (n : ℕ) → Ends false tree_allocated (suc n)
  unfolding lfw_bogon_set
  no_buffer-Ends tree_allocated n =
      let some_prefix : (suc n == 0) ≡ false = ground arith in
      (st, e_nomem, t, rw (some_prefix, lfw_bogon_set) refl, held)

  module _ (n : ℕ) (valid : IsAnnounced (suc n) attrs) where
    abbrev entries : List IpPrefix
    entries = decoded attrs ++ zeroed_prefixes (suc n - length (decoded attrs))

    filled : fill_buffer attrs (zeroed_prefixes (suc n)) ≡ some entries
    filled =
        let total : length (decoded attrs) + (suc n - length (decoded attrs)) ≡ suc n =
          omega (arith, valid.1) in
        ap (λ i. fill_buffer attrs (zeroed_prefixes i)) (sym total)
        ∙ fill_buffer-decoded attrs (suc n - length (decoded attrs))

    entries-IsPrefix : All IsPrefix entries
    entries-IsPrefix =
        All-append IsPrefix (decoded attrs) (zeroed_prefixes (suc n - length (decoded attrs)))
          valid.0 (zeroed-IsPrefix (suc n - length (decoded attrs)))

    no_tree-Ends : Ends true false (suc n)
    unfolding lfw_bogon_set lfw_load_bg_tree
    no_tree-Ends =
        let some_prefix : (suc n == 0) ≡ false = ground arith in
        (st, pos 0, t, rw (some_prefix, filled, lfw_bogon_set) refl, held)

    list-Ends : Ends true true (suc n)
    list-Ends =
        let (st', t', run, held') = load-IsBacked k entries st t ample entries-IsPrefix held in
        (
          st',
          pos 0,
          t',
          lfw_bogon_set-step k (suc n) attrs entries st st' (omega arith) filled run,
          held',
        )

  pub lfw_bogon_set-Ends :
      (allocated tree_allocated : Bool) (num : ℕ)
      → IsAnnounced num attrs
      → Ends allocated tree_allocated num
  lfw_bogon_set-Ends allocated tree_allocated zero valid = none-Ends allocated tree_allocated
  lfw_bogon_set-Ends false tree_allocated (suc n) valid = no_buffer-Ends tree_allocated n
  lfw_bogon_set-Ends true false (suc n) valid = no_tree-Ends n valid
  lfw_bogon_set-Ends true true (suc n) valid = list-Ends n valid
