-- ===== src/Bogon/Cover.antt =====
-- The bogon filter against its specification: a packet is a bogon's if its address has the masked
-- prefix of an entry of the list.
use Prim.Native.Nat.add
use mathlib.Core.Path.{ap₂}
use mathlib.Core.Bool.{or-false}
use librefw.Base.{
  ℕ, zero, suc, ◌+◌, ◌-◌, ◌/◌, ◌^◌, ◌<◌, ◌≡◌, ◌≢◌, refl, sym, ap, ◌∙◌, Bool, true, false, ◌||◌,
  some, List, [], ◌∷◌, ◌++◌, arith, ◌==◌, All,
}
use librefw.Base.Int.{ℤ, is_pos}
use librefw.Mem.{null, ok, Cache, IsAmple}
use librefw.Mem.Tree.{Tree, nil, node, root, view}
use librefw.Mem.Grow.{not_null}
use librefw.Trie.{Trie, leaf, fork, put}
use librefw.Word.{bit, bits, in4_get_masked, get_unaligned_be32}
use librefw.Word.Prefix.{length-bits, same_bits-quotient}
use librefw.Word.Mask.{masked-quotient}
use librefw.Bogon.{IpPrefix, BgState, lookup_walk, lfw_lookup_bg_tree, lfw_load_bg_tree}
use librefw.Bogon.Spec.{
  marked, marked-bare, is_prefix, marked-put, is_prefix-append, judge, judge-marked,
}
use librefw.Bogon.Load.{path_of, IsPrefix, loaded, IsBogon, lfw_load_bg_tree-loaded}
use librefw.Bogon.Lookup.{lookup_walk-judge}

-- Does the address have the prefix of the entry?
unfoldable pub covers : ℕ → IpPrefix → Bool
covers ip p =
    in4_get_masked ip p.ip_prefix_len
    == in4_get_masked (get_unaligned_be32 p.ip_prefix) p.ip_prefix_len

unfoldable pub covered : ℕ → List IpPrefix → Bool
covered ip [] = false
covered ip (p ∷ ps) = covers ip p || covered ip ps

bits-append : (x lo n : ℕ) → bits x 0 (n + lo) ≡ bits x lo n ++ bits x 0 lo
unfolding bits
bits-append x lo zero = ap (bits x 0) (add.zero lo)
bits-append x lo (suc n) =
    ap (bits x 0) (add.suc n lo) ∙ ap₂ ◌∷◌ (ap (bit x) (omega arith)) (bits-append x lo n)

pub get_unaligned_be32-lt : (w : ℕ) → get_unaligned_be32 w < 2 ^ 32
unfolding get_unaligned_be32
get_unaligned_be32-lt w = omega arith

beyond : (x n lo : ℕ) → n + lo ≡ 32 → x < 2 ^ 32 → x / 2 ^ (n + lo) ≡ 0
beyond x n lo e h = ap (λ (t : ℕ). x / 2 ^ t) e ∙ omega arith

eq-swap : (x y : ℕ) → (x == y) ≡ (y == x)
eq-swap x y = ground arith

is_prefix-covers :
    (ip : ℕ) (p : IpPrefix)
    → ip < 2 ^ 32
    → IsPrefix p
    → is_prefix (path_of p) (bits ip 0 32) ≡ covers ip p
unfolding path_of covers
is_prefix-covers ip p h le =
    let n = p.ip_prefix_len in
    let lo = 32 - n in
    let base = get_unaligned_be32 p.ip_prefix in
    ap (is_prefix (bits base lo n)) (ap (bits ip 0) (omega arith) ∙ bits-append ip lo n)
    ∙ is_prefix-append (bits base lo n) (bits ip lo n) (bits ip 0 lo)
        (length-bits base lo n ∙ sym (length-bits ip lo n))
    ∙ same_bits-quotient base ip lo n (
        beyond base n lo (omega arith) (get_unaligned_be32-lt p.ip_prefix)
        ∙ sym (beyond ip n lo (omega arith) h))
    ∙ eq-swap (base / 2 ^ lo) (ip / 2 ^ lo)
    ∙ sym (masked-quotient ip base n h (get_unaligned_be32-lt p.ip_prefix) (omega arith))

-- The loaded trie marks an address exactly if an entry covers it.
marked-loaded :
    (ip : ℕ) (ps : List IpPrefix) (t : Trie ℕ)
    → ip < 2 ^ 32
    → All IsPrefix ps
    → marked (loaded ps t) (bits ip 0 32) ≡ (covered ip ps || marked t (bits ip 0 32))
unfolding loaded covered
marked-loaded ip [] t h valid = refl
marked-loaded ip (p ∷ ps) t h valid = ground (
  arith,
  marked-loaded ip ps (put 0 (path_of p) 1 t) h valid.1,
  marked-put (path_of p) (bits ip 0 32) t,
  is_prefix-covers ip p h valid.0,
)

-- The lookup in a state with a tree ends without a fault and leaves the memory as it is; it returns
-- what the abstract trie says of the bits of the address, highest first.
pub lfw_lookup_bg_tree-judge :
    (ip : ℕ) (st : BgState) (t : Tree ℕ)
    → IsBogon st t
    → root t ≢ null
    → lfw_lookup_bg_tree ip st ≡ ok (judge (view t) (bits ip 0 32)) st.mem
unfolding lfw_lookup_bg_tree
lfw_lookup_bg_tree-judge ip st nil h ne = absurd (ne refl)
lfw_lookup_bg_tree-judge ip st (node p d l r) h ne =
    rw (not_null st.root (λ e. ne (sym h.rooted ∙ e))) (
      ap (λ a. lookup_walk ip 0 32 a st.mem) h.rooted
      ∙ lookup_walk-judge ip 0 32 st.mem p d l r (omega arith) h.owned)

-- With memory, a list of prefixes of fewer than 32 bits is loaded without a fault, and afterwards
-- `lfw_lookup_bg_tree` is positive, the code on which the filter drops a packet, for exactly the
-- addresses below 2 ^ 32 that agree with an entry of the list on the entry's masked prefix.
pub lookup-covered :
    (k : Cache ℕ) (ps : List IpPrefix) (st : BgState) (t : Tree ℕ) (ip : ℕ)
    → IsAmple k
    → All IsPrefix ps
    → IsBogon st t
    → ip < 2 ^ 32
    → (st' : BgState) × (v : ℤ) × (lfw_load_bg_tree k true ps st ≡ some st')
      × (lfw_lookup_bg_tree ip st' ≡ ok v st'.mem)
      × (is_pos v ≡ covered ip ps)
lookup-covered k ps st t ip ample valid h small =
    let (st', t', run, h', v, ne, old, apart, rcu) =
      lfw_load_bg_tree-loaded k ps st t ample valid h in
    (
      st',
      judge (view t') (bits ip 0 32),
      run,
      lfw_lookup_bg_tree-judge ip st' t' h' ne,
      judge-marked (view t') (bits ip 0 32)
          ∙ ap (λ x. marked x (bits ip 0 32)) v
          ∙ marked-loaded ip ps (fork 0 leaf leaf) small valid
          ∙ ap (λ b. covered ip ps || b) (marked-bare (bits ip 0 32))
          ∙ or-false (covered ip ps),
    )
