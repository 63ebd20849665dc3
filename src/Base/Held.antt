-- ===== src/Base/Held.antt =====
-- The resources that a component holds, by numbers of its own.
use librefw.Base.Tests.{◌==◌, if◌then◌else◌}
use Prim.Native.Nat.{ℕ}
use mathlib.Core.Option.{Option, none, some}
use mathlib.Core.Option
use mathlib.Core.List.{List, [], ◌∷◌}

-- `none` if the resource is not held: it would be released twice, or without having been acquired.
unfoldable pub give_back : ℕ → List ℕ → Option (List ℕ)
give_back p [] = none
give_back p (x ∷ held) =
    let rest = give_back p held in if p == x then some held else Option.map (λ h. x ∷ h) rest

unfoldable pub give_back_all : List ℕ → List ℕ → Option (List ℕ)
give_back_all [] held = some held
give_back_all (p ∷ ps) held = elim (give_back p held) [
  | none ↦ none
  | some held' ↦ give_back_all ps held'
]
