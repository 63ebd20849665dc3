-- ===== src/Bogon/Init.antt =====
-- `lfw_init_bg_state` and `lfw_free_bg_state` of kernel/src/bogon.c: what they hold and release.
use mathlib.Core.Option
use librefw.Base.{
  ℕ, ◌≡◌, refl, ◌⊎◌, inl, inr, Bool, true, false, Option, none, some, List, [], ◌∷◌, ◌++◌, map,
}
use librefw.Base.Int.{ℤ, pos, e_nomem}
use librefw.Base.Held.{give_back, give_back_all}
use librefw.Mem.{Ptr, Mem, null, ok, fault}
use librefw.Mem.Tree.{Tree, nil, root}
use librefw.Bogon.{BgState}
use librefw.Bogon.Load.{IsBogon}
use librefw.Bogon.Waiting.{run_bg_callbacks}

-- The resources of `struct lfw_bg_state`
abbrev pub state_memory : ℕ
state_memory = 0

abbrev pub slab_cache : ℕ
slab_cache = 1

abbrev pub tree_memory : ℕ
tree_memory = 2

-- The jump to an error label
abbrev fails : List ℕ → List ℕ → Option (List ℕ × Option BgState × ℤ)
fails ps held = Option.map (λ h. (h, none, e_nomem)) (give_back_all ps held)

-- Whether the two `kzalloc` and `kmem_cache_create` succeed, and what is held before: what is held
-- afterwards, the state and the code. `none` is a release of what is not held.
unfoldable pub lfw_init_bg_state :
    (allocated cache_made tree_allocated : Bool) → List ℕ → Option (List ℕ × Option BgState × ℤ)
lfw_init_bg_state false cache_made tree_allocated held = some (held, none, e_nomem)
lfw_init_bg_state true false tree_allocated held = fails (state_memory ∷ []) (state_memory ∷ held)
lfw_init_bg_state true true false held =
    fails (slab_cache ∷ state_memory ∷ []) (slab_cache ∷ state_memory ∷ held)
lfw_init_bg_state true true true held = some (
  tree_memory ∷ slab_cache ∷ state_memory ∷ held,
  some (record { root = null; mem = []; rcu = [] }),
  pos 0,
)

-- The memory of the old trees and of the tree itself
abbrev pub trees_of : BgState → List ℕ
trees_of st = map (λ _. tree_memory) (st.rcu ++ (st.root ∷ []))

-- `called` says whether the callbacks that wait, for the old trees and then for the tree itself, have run
-- when the slab cache is destroyed: `synchronize_rcu` does not wait for them. The memory of the nodes at
-- that moment, and what is held.
unfoldable pub lfw_free_bg_state :
    (called : Bool) → (stack : ℕ) → Option BgState → List ℕ → Option (Mem ℕ × List ℕ)
lfw_free_bg_state called stack none held = some ([], held)
lfw_free_bg_state false stack (some st) held =
    Option.map (λ h. (st.mem, h)) (give_back_all (slab_cache ∷ state_memory ∷ []) held)
lfw_free_bg_state true stack (some st) held =
    elim (run_bg_callbacks stack (st.rcu ++ (st.root ∷ [])) st.mem) [
      | fault ↦ none
      | ok _ m ↦
          Option.map (λ h. (m, h))
            (give_back_all (trees_of st ++ (slab_cache ∷ state_memory ∷ [])) held)
    ]

abbrev pub all_held : List ℕ
all_held = tree_memory ∷ slab_cache ∷ state_memory ∷ []

-- How an initialisation may end
abbrev pub Begins : Bool → Bool → Bool → Type 0
Begins allocated cache_made tree_allocated =
    (held : List ℕ) × (o : Option BgState) × (ret : ℤ) × (lfw_init_bg_state allocated cache_made
        tree_allocated []
      ≡ some (held, o, ret))
    × (((ret ≡ pos 0)
          × (held ≡ all_held)
          × (st : BgState) × (o ≡ some st)
          × IsBogon st nil
          × (st.rcu ≡ []))
        ⊎ ((ret ≡ e_nomem) × (held ≡ []) × (o ≡ none)))

-- `lfw_init_bg_state` releases nothing that it does not hold. Either it returns 0 with everything held
-- and a state with an empty tree and no old ones, or `-ENOMEM` with nothing held.
pub lfw_init_bg_state-Begins :
    (allocated cache_made tree_allocated : Bool) → Begins allocated cache_made tree_allocated
unfolding lfw_init_bg_state give_back_all give_back
lfw_init_bg_state-Begins false cache_made tree_allocated =
    ([], none, e_nomem, refl, inr (refl, refl, refl))
lfw_init_bg_state-Begins true false tree_allocated =
    ([], none, e_nomem, refl, inr (refl, refl, refl))
lfw_init_bg_state-Begins true true false = ([], none, e_nomem, refl, inr (refl, refl, refl))
lfw_init_bg_state-Begins true true true = (
  all_held,
  some (record { root = null; mem = []; rcu = [] }),
  pos 0,
  refl,
  inl (
    refl,
    refl,
    record { root = null; mem = []; rcu = [] },
    refl,
    record { rooted = refl; owned = tt },
    refl,
  ),
)

-- What a state holds
abbrev pub held_by : BgState → List ℕ
held_by st = trees_of st ++ (slab_cache ∷ state_memory ∷ [])

abbrev memories : List Ptr → List ℕ
memories = map (λ _. tree_memory)
