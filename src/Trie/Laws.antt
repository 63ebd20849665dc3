-- ===== src/Trie/Laws.antt =====
-- The abstract trie as a map from paths of one length.
use librefw.Base.{suc, ◌≡◌, refl, true, false, none, some, [], ◌∷◌, arith, if◌then◌else◌, length}
use librefw.Trie.{Trie, leaf, fork, Bits, find, put, missing, same_bits}

module _ {D : Type 0} (z : D) where
  find-put_leaf :
      (q bs : Bits) (d : D)
      → length q ≡ length bs
      → find (put z bs d leaf) q ≡ (if same_bits q bs then some d else none)
  unfolding find put
  find-put_leaf [] [] d e = refl
  find-put_leaf [] (b ∷ bs) d e = absurd (omega arith)
  find-put_leaf (a ∷ q) [] d e = absurd (omega arith)
  find-put_leaf (false ∷ q) (false ∷ bs) d e = find-put_leaf q bs d (omega arith)
  find-put_leaf (false ∷ q) (true ∷ bs) d e = refl
  find-put_leaf (true ∷ q) (false ∷ bs) d e = refl
  find-put_leaf (true ∷ q) (true ∷ bs) d e = find-put_leaf q bs d (omega arith)

  -- A trie reads back what was put at the same path, and all else of that length as before.
  pub find-put :
      (q bs : Bits) (d : D) (t : Trie D)
      → length q ≡ length bs
      → find (put z bs d t) q ≡ (if same_bits q bs then some d else find t q)
  unfolding find put
  find-put q bs d leaf e = find-put_leaf q bs d e
  find-put [] [] d (fork x l r) e = refl
  find-put [] (b ∷ bs) d (fork x l r) e = absurd (omega arith)
  find-put (a ∷ q) [] d (fork x l r) e = absurd (omega arith)
  find-put (false ∷ q) (false ∷ bs) d (fork x l r) e = find-put q bs d l (omega arith)
  find-put (false ∷ q) (true ∷ bs) d (fork x l r) e = refl
  find-put (true ∷ q) (false ∷ bs) d (fork x l r) e = refl
  find-put (true ∷ q) (true ∷ bs) d (fork x l r) e = find-put q bs d r (omega arith)

  -- A node with nothing below it takes an insertion as no node does, but for its own creation.
  pub put-fork_leaf : (bs : Bits) (d : D) → put z bs d (fork z leaf leaf) ≡ put z bs d leaf
  unfolding put
  put-fork_leaf [] d = refl
  put-fork_leaf (false ∷ bs) d = refl
  put-fork_leaf (true ∷ bs) d = refl

  pub missing-fork_leaf :
      (bs : Bits) → missing {D = D} bs leaf ≡ suc (missing bs (fork z leaf leaf))
  unfolding missing
  missing-fork_leaf [] = refl
  missing-fork_leaf (false ∷ bs) = refl
  missing-fork_leaf (true ∷ bs) = refl
