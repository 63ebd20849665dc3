-- ===== src/Trie.antt =====
-- The abstract binary tries that both trees of the kernel module stand for: no addresses, and a
-- path is the list of the bits that choose the children.
pub mod Laws
pub mod Depth
use librefw.Base.{ℕ, suc, Bool, true, false, Option, none, some, List, [], ◌∷◌}

pub data Trie (D : Type 0) : Type 0 where
  leaf : Trie D
  fork : D → Trie D → Trie D → Trie D

abbrev pub Bits : Type 0
Bits = List Bool

module _ {D : Type 0} where
  -- The payload at a path.
  unfoldable pub find : Trie D → Bits → Option D
  find leaf bs = none
  find (fork d l r) [] = some d
  find (fork d l r) (false ∷ bs) = find l bs
  find (fork d l r) (true ∷ bs) = find r bs

  -- Sets the payload at a path. Nodes that are missing on the way get the payload `z`.
  unfoldable pub put : D → Bits → D → Trie D → Trie D
  put z [] d leaf = fork d leaf leaf
  put z [] d (fork e l r) = fork d l r
  put z (false ∷ bs) d leaf = fork z (put z bs d leaf) leaf
  put z (true ∷ bs) d leaf = fork z leaf (put z bs d leaf)
  put z (false ∷ bs) d (fork e l r) = fork e (put z bs d l) r
  put z (true ∷ bs) d (fork e l r) = fork e l (put z bs d r)

  -- The number of nodes that `put` adds.
  unfoldable pub missing : Bits → Trie D → ℕ
  missing [] leaf = 1
  missing [] (fork d l r) = 0
  missing (b ∷ bs) leaf = suc (missing bs leaf)
  missing (false ∷ bs) (fork d l r) = missing bs l
  missing (true ∷ bs) (fork d l r) = missing bs r

abbrev pub same_bits : Bits → Bits → Bool
same_bits [] [] = true
same_bits [] (b ∷ bs) = false
same_bits (a ∷ as') [] = false
same_bits (false ∷ as') (false ∷ bs) = same_bits as' bs
same_bits (false ∷ as') (true ∷ bs) = false
same_bits (true ∷ as') (false ∷ bs) = false
same_bits (true ∷ as') (true ∷ bs) = same_bits as' bs
