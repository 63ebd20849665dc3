-- ===== src/Hcf/Lookup.antt =====
-- `hcf_lookup_tree` reads the abstract trie.
use librefw.Base.{
  ℕ, zero, suc, ◌+◌, ◌/◌, ◌^◌, ◌<◌, ◌≡◌, refl, sym, ap, ◌∙◌, inl, inr, none, some, arith, ◌==◌,
  Bool-cases, if◌then◌else◌,
}
use librefw.Mem.{Ptr, null, Mem, ok, pure, ◌>>=◌, >>=-ok, get_child, child, node_of}
use librefw.Mem.Tree.{Tree, nil, node, root, view, Owns}
use librefw.Mem.Grow.{not_null, load-cell, get_child-cell}
use librefw.Trie.{Trie, find, put}
use librefw.Trie.Laws.{find-put}
use librefw.Word.{bit, bits}
use librefw.Word.Prefix.{length-bits, same_bits-quotient}
use librefw.Hcf.{HcfInfo, blank, HcfState, lookup_walk, verdict, hcf_lookup_tree}
use librefw.Hcf.Register.{IsHcf}

-- The walk goes down on the side of the bit.
walk-step :
    (ip n : ℕ) (m : Mem HcfInfo) (p q : Ptr)
    → get_child p (bit ip (n + 8)) m ≡ ok q m
    → lookup_walk ip (suc n) p m ≡ (if q == null then pure none else lookup_walk ip n q) m
unfolding lookup_walk
walk-step ip n m p q e = rw (e, ◌>>=◌)

-- A subtree, which may be empty.
walk-child :
    (ip n : ℕ) (m : Mem HcfInfo) (t : Tree HcfInfo)
    → Owns m t
    → ((p : Ptr) (d : HcfInfo) (l r : Tree HcfInfo)
        → Owns m (node p d l r)
        → lookup_walk ip n p m ≡ ok (find (view (node p d l r)) (bits ip 8 n)) m)
    → (if root t == null then pure none else lookup_walk ip n (root t)) m
      ≡ ok (find (view t) (bits ip 8 n)) m
unfolding find
walk-child ip n m nil o rec = refl
walk-child ip n m (node p d l r) o rec = rw (not_null p o.0) (rec p d l r o)

pub lookup_walk-find :
    (ip n : ℕ) (m : Mem HcfInfo) (p : Ptr) (d : HcfInfo) (l r : Tree HcfInfo)
    → Owns m (node p d l r)
    → lookup_walk ip n p m ≡ ok (find (view (node p d l r)) (bits ip 8 n)) m
unfolding lookup_walk bits find
lookup_walk-find ip zero m p d l r o = rw (load-cell p o.0 o.1, ◌>>=◌)
lookup_walk-find ip (suc n) m p d l r o =
    let got = get_child-cell p o.0 o.1 (bit ip (n + 8)) in
    elim (Bool-cases (bit ip (n + 8))) [
      | inl one ↦
          walk-step ip n m p (root r)
            (got ∙ ap (λ b. ok (child (node_of (root l) (root r) d) b) m) one)
          ∙ rw one (walk-child ip n m r o.6 (lookup_walk-find ip n m))
      | inr zero_bit ↦
          walk-step ip n m p (root l)
            (got ∙ ap (λ b. ok (child (node_of (root l) (root r) d) b) m) zero_bit)
          ∙ rw zero_bit (walk-child ip n m l o.5 (lookup_walk-find ip n m))
    ]

-- In a state that holds a tree `hcf_lookup_tree` ends without a fault and answers for the entry
-- that the abstract trie has at the upper 24 bits of the address, leaving the memory as it is.
pub hcf_lookup_tree-find :
    (ip ttl : ℕ) (st : HcfState) (t : Tree HcfInfo)
    → IsHcf st t
    → hcf_lookup_tree ip ttl st ≡ ok (verdict ttl (find (view t) (bits ip 8 24))) st.mem
unfolding hcf_lookup_tree find verdict
hcf_lookup_tree-find ip ttl st nil h = rw h.rooted
hcf_lookup_tree-find ip ttl st (node p d l r) h =
    rw (not_null st.tree (λ e. h.owned.0 (sym h.rooted ∙ e))) (
      >>=-ok (lookup_walk ip 24 st.tree) (λ c. pure (verdict ttl c))
        (ap (λ a. lookup_walk ip 24 a st.mem) h.rooted
          ∙ lookup_walk-find ip 24 st.mem p d l r h.owned))

-- After `put` at an address, the entries of that address's /24 network are new, all others old.
pub find-put_network :
    (ip learnt_ip : ℕ) (e : HcfInfo) (t : Trie HcfInfo)
    → ip < 2 ^ 32
    → learnt_ip < 2 ^ 32
    → find (put blank (bits learnt_ip 8 24) e t) (bits ip 8 24)
      ≡ (if ip / 2 ^ 8 == learnt_ip / 2 ^ 8 then some e else find t (bits ip 8 24))
find-put_network ip learnt_ip e t h h' =
    find-put blank (bits ip 8 24) (bits learnt_ip 8 24) e t
      (length-bits ip 8 24 ∙ sym (length-bits learnt_ip 8 24))
    ∙ ap (λ b. if b then some e else find t (bits ip 8 24))
        (same_bits-quotient ip learnt_ip 8 24 (omega arith))
