-- ===== src/Base/Sublist.antt =====
-- Lists with some elements left out.
use mathlib.Core.Path.{◌≡◌, refl, ap}
use mathlib.Core.List.{List, [], ◌∷◌, ◌++◌, map, Sublistᴰ}

pub sublist-nil {ℓ} : {A : Type ℓ} (xs : List A) → Sublistᴰ [] xs
sublist-nil [] = Sublistᴰ.slnil
sublist-nil (x ∷ xs) = Sublistᴰ.cons (sublist-nil xs)

pub sublist-left {ℓ} :
    {A : Type ℓ} {xs ys : List A} (zs : List A) → Sublistᴰ xs ys → Sublistᴰ xs (ys ++ zs)
sublist-left zs Sublistᴰ.slnil = sublist-nil zs
sublist-left zs (Sublistᴰ.cons h) = Sublistᴰ.cons (sublist-left zs h)
sublist-left zs (Sublistᴰ.cons-cons e h) = Sublistᴰ.cons-cons e (sublist-left zs h)

pub sublist-append {ℓ} :
    {A : Type ℓ} {xs ys zs ws : List A}
    → Sublistᴰ xs ys
    → Sublistᴰ zs ws
    → Sublistᴰ (xs ++ zs) (ys ++ ws)
sublist-append Sublistᴰ.slnil k = k
sublist-append (Sublistᴰ.cons h) k = Sublistᴰ.cons (sublist-append h k)
sublist-append (Sublistᴰ.cons-cons e h) k = Sublistᴰ.cons-cons e (sublist-append h k)

pub map-append {ℓ κ} :
    {A : Type ℓ} {B : Type κ} (f : A → B) (xs ys : List A) → map f (xs ++ ys) ≡ map f xs ++ map f ys
map-append f [] ys = refl
map-append f (x ∷ xs) ys = ap (λ l. f x ∷ l) (map-append f xs ys)
