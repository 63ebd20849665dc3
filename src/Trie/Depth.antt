-- ===== src/Trie/Depth.antt =====
-- How deep a trie is.
use Prim.Native.Nat.{max}
use librefw.Base.{ℕ, zero, suc, ◌≤◌, ◌<◌, true, false, [], ◌∷◌, arith, length}
use librefw.Trie.{Trie, leaf, fork, Bits, put}

module _ {D : Type 0} where
  unfoldable pub depth : Trie D → ℕ
  depth leaf = 0
  depth (fork d l r) = suc (max (depth l) (depth r))

  pub depth-put :
      (z : D) (bs : Bits) (d : D) (t : Trie D) (n : ℕ)
      → depth t ≤ n
      → length bs < n
      → depth (put z bs d t) ≤ n
  unfolding depth put
  depth-put z [] d leaf n h k = omega arith
  depth-put z [] d (fork e l r) n h k = h
  depth-put z (false ∷ bs) d leaf zero h k = omega arith
  depth-put z (false ∷ bs) d leaf (suc n) h k =
      omega (arith, depth-put z bs d leaf n (omega arith) (omega arith))
  depth-put z (true ∷ bs) d leaf zero h k = omega arith
  depth-put z (true ∷ bs) d leaf (suc n) h k =
      omega (arith, depth-put z bs d leaf n (omega arith) (omega arith))
  depth-put z (false ∷ bs) d (fork e l r) zero h k = omega arith
  depth-put z (false ∷ bs) d (fork e l r) (suc n) h k =
      omega (arith, depth-put z bs d l n (omega arith) (omega arith))
  depth-put z (true ∷ bs) d (fork e l r) zero h k = omega arith
  depth-put z (true ∷ bs) d (fork e l r) (suc n) h k =
      omega (arith, depth-put z bs d r n (omega arith) (omega arith))

  pub put_not_leaf : (z : D) (bs : Bits) (d : D) (t : Trie D) → 0 < depth (put z bs d t)
  unfolding depth put
  put_not_leaf z [] d leaf = omega arith
  put_not_leaf z [] d (fork e l r) = omega arith
  put_not_leaf z (false ∷ bs) d leaf = omega arith
  put_not_leaf z (true ∷ bs) d leaf = omega arith
  put_not_leaf z (false ∷ bs) d (fork e l r) = omega arith
  put_not_leaf z (true ∷ bs) d (fork e l r) = omega arith
