-- ===== src/Mem/Build.antt =====
-- A tree that is built from one new node, next to a tree that the memory holds.
use librefw.Base.{
  ◌≡◌, ◌≢◌, refl, sym, ap, ◌∙◌, inl, inr, false, none, some, arith, ◌==◌, ==_iff, Bool-cases,
}
use librefw.Mem.{Ptr, null, Mem, read, write, node_of, Cache, IsAmple}
use librefw.Mem.Tree.{Tree, nil, node, has, Owns}
use librefw.Mem.Steps.{Steps}
use librefw.Mem.Grow.{created}

pub created-Owns :
    {D : Type 0} (k : Cache D) (z : D) (m : Mem D)
    → IsAmple k
    → Owns (created k z m) (node (k.next m) z nil nil)
created-Owns k z m ample = (ample m, ground arith, refl, refl, λ a i. cc, tt, tt)

-- A run that builds a tree from one new node keeps what was there, and shares nothing with it.
module _ {D : Type 0} (z z' : D) (m m' : Mem D) (p : Ptr) (t' : Tree D) (fresh : read m p ≡ none)
    (g : Steps
      (has (node p z nil nil))
      (write (write m p (some (node_of null null z'))) p (some (node_of null null z)))
      (node p z nil nil)
      m'
      t') where
  other : (a : Ptr) → read m a ≢ none → (a == p) ≡ false
  other a used = elim (Bool-cases (a == p)) [
    | inl e ↦ absurd (used (ap (read m) ((==_iff a p).0 e) ∙ fresh))
    | inr out ↦ out
  ]

  created_kept :
      (a : Ptr)
      → read m a ≢ none
      → read (write (write m p (some (node_of null null z'))) p (some (node_of null null z))) a
        ≡ read m a
  created_kept a used = ground (arith, other a used)

  pub build_kept : (a : Ptr) → read m a ≢ none → read m' a ≡ read m a
  build_kept a used =
      g.frame a (ground (arith, other a used)) (rw (created_kept a used) used) ∙ created_kept a used

  pub build_out : (a : Ptr) → read m a ≢ none → has t' a ≡ false
  build_out a used = elim (Bool-cases (has t' a)) [
    | inr out ↦ out
    | inl j ↦ elim (g.origin a j) [
      | inl here ↦ cc (other a used, here)
      | inr gone ↦ absurd (used (sym (created_kept a used) ∙ gone))
    ]
  ]
