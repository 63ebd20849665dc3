-- ===== src/Bogon/Lookup.antt =====
-- `lfw_lookup_bg_tree` reads the abstract trie.
use librefw.Base.{
  ℕ, zero, suc, ◌+◌, ◌≡◌, refl, sym, ap, inl, inr, arith, ◌==◌, Bool-cases, if◌then◌else◌,
}
use librefw.Base.Int.{minus}
use librefw.Mem.{Ptr, null, Mem, ok, pure, ◌>>=◌}
use librefw.Mem.Tree.{Tree, nil, node, root, view, Owns}
use librefw.Mem.Grow.{not_null, load-cell}
use librefw.Word.{bit, bits}
use librefw.Bogon.{lookup_walk}
use librefw.Bogon.Spec.{judge, judge-root}
use librefw.Bogon.Load.{in4_get_bit-bit}

walk-child :
    (ip i n : ℕ) (m : Mem ℕ) (t : Tree ℕ)
    → Owns m t
    → ((p : Ptr) (d : ℕ) (l r : Tree ℕ)
        → Owns m (node p d l r)
        → lookup_walk ip i n p m ≡ ok (judge (view (node p d l r)) (bits ip 0 n)) m)
    → (if root t == null then pure (minus 2) else lookup_walk ip i n (root t)) m
      ≡ ok (judge (view t) (bits ip 0 n)) m
unfolding judge
walk-child ip i n m nil o rec = refl
walk-child ip i n m (node p d l r) o rec = rw (not_null p o.0) (rec p d l r o)

pub lookup_walk-judge :
    (ip i n : ℕ) (m : Mem ℕ) (p : Ptr) (d : ℕ) (l r : Tree ℕ)
    → i + n ≡ 32
    → Owns m (node p d l r)
    → lookup_walk ip i n p m ≡ ok (judge (view (node p d l r)) (bits ip 0 n)) m
unfolding lookup_walk bits judge
lookup_walk-judge ip i zero m p d l r e o = rw (load-cell p o.0 o.1, ◌>>=◌)
lookup_walk-judge ip i (suc n) m p d l r e o =
    let rec = λ (t : Tree ℕ) (o' : Owns m t).
      walk-child ip (suc i) n m t o'
        (λ p' d' l' r'. lookup_walk-judge ip (suc i) n m p' d' l' r' (omega arith)) in
    elim (Bool-cases (d == 0)) [
      | inr hit ↦
          rw (load-cell p o.0 o.1, ◌>>=◌, hit)
            (ap (λ v. ok v m) (sym (judge-root d (view l) (view r) (bits ip 0 (suc n)) hit)))
      | inl miss ↦ elim (Bool-cases (bit ip (n + 0))) [
        | inl one ↦
            rw (load-cell p o.0 o.1, ◌>>=◌, miss, in4_get_bit-bit ip i n 0 (omega arith), one)
              (rw miss (rec r o.6))
        | inr zero_bit ↦
            rw (load-cell p o.0 o.1, ◌>>=◌, miss, in4_get_bit-bit ip i n 0 (omega arith), zero_bit)
              (rw miss (rec l o.5))
      ]
    ]
