-- ===== src/Start.antt =====
-- kernel/src/mod.c, lfw_init_state and lfw_free_state of kernel/src/state.c, the registration of the
-- hooks in kernel/src/hooks.c: what the module holds of the kernel's resources while it starts and
-- stops. The initialisations of the subsystems and the kernel's calls are their return codes.
pub mod Rollback
pub mod Boot
use mathlib.Core.Option
use librefw.Base.{
  ℕ, Bool, true, false, ◌||◌, Option, none, some, List, [], ◌∷◌, ◌==◌, if◌then◌else◌,
}
use librefw.Base.Int.{ℤ, pos, is_neg, is_nonzero, e_nomem, e_nodev}

-- The memory of the state, the netlink family, the three subsystems, the reference to the network
-- device, and the hooks.
pub data Part : Type 0 where
  state_memory : Part
  netlink : Part
  bogon_state : Part
  hop_count_state : Part
  packet_log : Part
  device : Part
  hooks : Part

abbrev pub number : Part → ℕ
number state_memory = 0
number netlink = 1
number bogon_state = 2
number hop_count_state = 3
number packet_log = 4
number device = 5
number hooks = 6

-- The return codes of the calls that may fail, and whether `kzalloc` and `netdev_get_by_name` succeed.
pub record Codes : Type 0 where
  pub allocated : Bool
  pub nl_init : ℤ
  pub init_bg_state : ℤ
  pub hcf_init_state : ℤ
  pub init_pkt_filter_log_state : ℤ
  pub device_found : Bool
  pub nf_register_net_hooks : ℤ

abbrev pub holds : Part → List Part → Bool
holds p [] = false
holds p (x ∷ held) = number p == number x || holds p held

-- `none` if the part is not held: it would be released twice, or without having been acquired.
unfoldable pub release : Part → List Part → Option (List Part)
release p [] = none
release p (x ∷ held) =
    let rest = release p held in
    if number p == number x then some held else Option.map (λ h. x ∷ h) rest

unfoldable pub release_all : List Part → List Part → Option (List Part)
release_all [] held = some held
release_all (p ∷ ps) held = elim (release p held) [
  | none ↦ none
  | some held' ↦ release_all ps held'
]

-- The jump to an error label: the parts that are released from there on, and the code.
abbrev pub fail : ℤ → List Part → List Part → Option (List Part × ℤ)
fail ret ps held = Option.map (λ h. (h, ret)) (release_all ps held)

unfoldable pub lfw_init_state : Codes → List Part → Option (List Part × ℤ)
lfw_init_state c held =
    if c.allocated
    then if is_neg c.nl_init
      then fail c.nl_init (state_memory ∷ []) (state_memory ∷ held)
      else if is_neg c.init_bg_state
      then fail c.init_bg_state (netlink ∷ state_memory ∷ []) (netlink ∷ state_memory ∷ held)
      else if is_neg c.hcf_init_state
      then fail c.hcf_init_state (bogon_state ∷ netlink ∷ state_memory ∷ [])
          (bogon_state ∷ netlink ∷ state_memory ∷ held)
      else if is_neg c.init_pkt_filter_log_state
      then fail c.init_pkt_filter_log_state
          (hop_count_state ∷ bogon_state ∷ netlink ∷ state_memory ∷ [])
          (hop_count_state ∷ bogon_state ∷ netlink ∷ state_memory ∷ held)
      else some (packet_log ∷ hop_count_state ∷ bogon_state ∷ netlink ∷ state_memory ∷ held, pos 0)
    else some (held, e_nomem)

unfoldable pub lfw_free_state : List Part → Option (List Part)
lfw_free_state held =
    release_all (packet_log ∷ hop_count_state ∷ bogon_state ∷ netlink ∷ state_memory ∷ []) held

unfoldable pub lfw_register_hooks : Codes → List Part → Option (List Part × ℤ)
lfw_register_hooks c held =
    if c.device_found
    then if is_nonzero c.nf_register_net_hooks
      then fail c.nf_register_net_hooks (device ∷ []) (device ∷ held)
      else some (hooks ∷ device ∷ held, pos 0)
    else some (held, e_nodev)

-- `net.dev` is set while the device is held.
unfoldable pub lfw_unregister_hooks : List Part → Option (List Part)
lfw_unregister_hooks held =
    if holds device held then release_all (hooks ∷ device ∷ []) held else some held

unfoldable pub lfw_mod_init : Codes → List Part → Option (List Part × ℤ)
lfw_mod_init c held = elim (lfw_init_state c held) [
  | none ↦ none
  | some (held', ret) ↦
      if is_neg ret then some (held', ret) else elim (lfw_register_hooks c held') [
        | none ↦ none
        | some (held'', ret') ↦
            if is_neg ret'
            then Option.map (λ h. (h, ret')) (lfw_free_state held'')
            else some (held'', pos 0)
      ]
]

-- Does `lfw_mod_init` call `lfw_free_state`? The subsystems are initialised, and the hooks are refused.
unfoldable pub rolls_back : Codes → Bool
rolls_back c = elim (lfw_init_state c []) [
  | none ↦ false
  | some (held, ret) ↦
      if is_neg ret
      then false
      else elim (lfw_register_hooks c held) [ none ↦ false | some (held', ret') ↦ is_neg ret' ]
]

unfoldable pub lfw_mod_exit : List Part → Option (List Part)
lfw_mod_exit held = elim (lfw_unregister_hooks held) [
  | none ↦ none
  | some held' ↦ lfw_free_state held'
]
