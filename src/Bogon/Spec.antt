-- ===== src/Bogon/Spec.antt =====
-- The abstract bogon trie: which paths it marks.
use librefw.Base.{
  ℕ, ◌≡◌, refl, Bool, true, false, not, ◌||◌, [], ◌∷◌, ◌++◌, arith, ◌==◌, if◌then◌else◌, length,
}
use librefw.Base.Int.{ℤ, pos, minus, is_pos}
use librefw.Trie.{Trie, leaf, fork, Bits, put, same_bits}

-- Is a node on the path marked?
unfoldable pub marked : Trie ℕ → Bits → Bool
marked leaf bs = false
marked (fork d l r) [] = not (d == 0)
marked (fork d l r) (false ∷ bs) = not (d == 0) || marked l bs
marked (fork d l r) (true ∷ bs) = not (d == 0) || marked r bs

abbrev pub is_prefix : Bits → Bits → Bool
is_prefix [] bs = true
is_prefix (a ∷ as') [] = false
is_prefix (false ∷ as') (false ∷ bs) = is_prefix as' bs
is_prefix (false ∷ as') (true ∷ bs) = false
is_prefix (true ∷ as') (false ∷ bs) = false
is_prefix (true ∷ as') (true ∷ bs) = is_prefix as' bs

marked-put_leaf : (q bs : Bits) → marked (put 0 q 1 leaf) bs ≡ is_prefix q bs
unfolding marked put
marked-put_leaf [] [] = refl
marked-put_leaf [] (false ∷ bs) = refl
marked-put_leaf [] (true ∷ bs) = refl
marked-put_leaf (false ∷ q) [] = refl
marked-put_leaf (true ∷ q) [] = refl
marked-put_leaf (false ∷ q) (false ∷ bs) = marked-put_leaf q bs
marked-put_leaf (false ∷ q) (true ∷ bs) = refl
marked-put_leaf (true ∷ q) (false ∷ bs) = refl
marked-put_leaf (true ∷ q) (true ∷ bs) = marked-put_leaf q bs

-- To mark a path is to mark all paths that it begins, and no others.
pub marked-put :
    (q bs : Bits) (t : Trie ℕ) → marked (put 0 q 1 t) bs ≡ (is_prefix q bs || marked t bs)
unfolding marked put
marked-put q bs leaf = ground (arith, marked-put_leaf q bs)
marked-put [] [] (fork d l r) = refl
marked-put [] (false ∷ bs) (fork d l r) = refl
marked-put [] (true ∷ bs) (fork d l r) = refl
marked-put (false ∷ q) [] (fork d l r) = refl
marked-put (true ∷ q) [] (fork d l r) = refl
marked-put (false ∷ q) (false ∷ bs) (fork d l r) = ground (arith, marked-put q bs l)
marked-put (false ∷ q) (true ∷ bs) (fork d l r) = refl
marked-put (true ∷ q) (false ∷ bs) (fork d l r) = refl
marked-put (true ∷ q) (true ∷ bs) (fork d l r) = ground (arith, marked-put q bs r)

-- Against a longer path only its beginning counts.
pub is_prefix-append :
    (q bs cs : Bits) → length q ≡ length bs → is_prefix q (bs ++ cs) ≡ same_bits q bs
is_prefix-append [] [] cs e = refl
is_prefix-append [] (b ∷ bs) cs e = absurd (omega arith)
is_prefix-append (a ∷ q) [] cs e = absurd (omega arith)
is_prefix-append (false ∷ q) (false ∷ bs) cs e = is_prefix-append q bs cs (omega arith)
is_prefix-append (false ∷ q) (true ∷ bs) cs e = refl
is_prefix-append (true ∷ q) (false ∷ bs) cs e = refl
is_prefix-append (true ∷ q) (true ∷ bs) cs e = is_prefix-append q bs cs (omega arith)

-- The code that the lookup returns for a tree below some root.
unfoldable pub judge : Trie ℕ → Bits → ℤ
judge leaf bs = minus 2
judge (fork d l r) [] = if d == 0 then pos 0 else pos 1
judge (fork d l r) (false ∷ bs) = if d == 0 then judge l bs else pos 1
judge (fork d l r) (true ∷ bs) = if d == 0 then judge r bs else pos 1

pub judge-marked : (t : Trie ℕ) (bs : Bits) → is_pos (judge t bs) ≡ marked t bs
unfolding judge marked
judge-marked leaf bs = refl
judge-marked (fork d l r) [] = ground arith
judge-marked (fork d l r) (false ∷ bs) = ground (arith, judge-marked l bs)
judge-marked (fork d l r) (true ∷ bs) = ground (arith, judge-marked r bs)

-- A marked root decides.
pub judge-root :
    (d : ℕ) (l r : Trie ℕ) (bs : Bits) → (d == 0) ≡ false → judge (fork d l r) bs ≡ pos 1
unfolding judge
judge-root d l r [] h = rw h
judge-root d l r (false ∷ bs) h = rw h
judge-root d l r (true ∷ bs) h = rw h

pub marked-bare : (bs : Bits) → marked (fork 0 leaf leaf) bs ≡ false
unfolding marked
marked-bare [] = refl
marked-bare (false ∷ bs) = refl
marked-bare (true ∷ bs) = refl
