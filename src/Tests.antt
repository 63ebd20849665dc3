-- ===== src/Tests.antt =====
-- A cache and states to try the theorems on.
mod HopCount
mod Prefixes
mod Messages
mod Starting
mod Roomy
mod Delivery
mod Packets
mod System
mod Running
mod Sharing
mod Serving
use Prim.Native.Nat.{max}
use librefw.Base.{ℕ, suc, ◌<◌, ◌≡◌, refl, none, some, [], ◌∷◌, List, arith}
use librefw.Mem.{Mem, Ptr, node_of, read, Cache, IsAmple}
use librefw.Mem.Tree.{Tree, nil, node}
use librefw.Hcf.{HcfInfo, blank, Task, HcfState}
use librefw.Hcf.Register.{IsHcf}
use librefw.Bogon.{IpPrefix, BgState}
use librefw.Bogon.Load.{IsBogon}

abbrev max_address : {D : Type 0} → Mem D → ℕ
max_address [] = 0
max_address ((p, c) ∷ m) = max p (max_address m)

pub read-above : {D : Type 0} (m : Mem D) (a : Ptr) → max_address m < a → read m a ≡ none
read-above [] a h = refl
read-above ((p, c) ∷ m) a h = ground (arith, read-above m a)

-- A cache that takes the address above all that were ever used.
abbrev pub bump : {D : Type 0} → D → Cache D
bump d = record {
  zeroed = d;
  next = λ m. suc (max_address m);
  fresh = λ m ne. read-above m (suc (max_address m)) (omega arith);
}

pub bump-IsAmple : {D : Type 0} (d : D) → IsAmple (bump d)
bump-IsAmple d m e = omega (arith, e)

-- A hop-count tree with a root alone, and one node that waits for its callback.
abbrev pub one_node : Tree HcfInfo
one_node = node 1 blank nil nil

abbrev pub one_node_state : HcfState
one_node_state = record {
  tree = 1;
  mem = (1, some (node_of 0 0 blank)) ∷ (2, some (node_of 0 0 blank)) ∷ [];
  rcu = 2 ∷ [];
}

pub one_node-IsHcf : IsHcf one_node_state one_node
one_node-IsHcf = record {
  rooted = refl;
  owned = (λ e. omega (arith, e), refl, refl, refl, λ a i. refl, tt, tt);
  pending = (λ e. omega (arith, e), λ e. ground (arith, e), refl, refl, tt);
}

-- 192.0.2.1 with TTL 57
abbrev pub example_task : Task
example_task = record { source_ip = 0xc000_0201; ttl = 57 }

-- No bogon list is loaded.
abbrev pub no_list : BgState
no_list = record { root = 0; mem = []; rcu = [] }

pub no_list-IsBogon : IsBogon no_list nil
no_list-IsBogon = record { rooted = refl; owned = tt }

-- The list 0.0.0.0/1 is loaded.
abbrev pub one_prefix : Tree ℕ
one_prefix = node 1 0 (node 2 1 nil nil) nil

abbrev pub one_prefix_state : BgState
one_prefix_state = record {
  root = 1;
  mem = (1, some (node_of 2 0 0)) ∷ (2, some (node_of 0 0 1)) ∷ [];
  rcu = [];
}

pub one_prefix-IsBogon : IsBogon one_prefix_state one_prefix
one_prefix-IsBogon = record {
  rooted = refl;
  owned = (
    (λ e. omega (arith, e)),
    refl,
    refl,
    refl,
    (λ a i. refl),
    ((λ e. omega (arith, e)), refl, refl, refl, (λ a i. refl), tt, tt),
    tt,
  );
}

-- 10.0.0.0/8 and 192.168.0.0/16, the addresses in network byte order
abbrev pub private_nets : List IpPrefix
private_nets =
    record { ip_prefix = 0x0a; ip_prefix_len = 8 }
    ∷ record { ip_prefix = 0xa8c0; ip_prefix_len = 16 }
    ∷ []
