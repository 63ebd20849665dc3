-- ===== src/Start/Rollback.antt =====
-- A start of the module acquires everything or nothing.
use librefw.Base.{
  ℕ, zero, suc, ◌≡◌, refl, sym, ap, ◌&&◌, not, ◌⊎◌, inl, inr, Bool, true, false, Option, none, some,
  List, [], ◌∷◌,
}
use librefw.Base.Int.{ℤ, pos, negsuc, is_neg, is_pos, is_nonzero}
use librefw.Start.{
  Part, state_memory, netlink, bogon_state, hop_count_state, packet_log, device, hooks, Codes,
  release, release_all, lfw_init_state, lfw_free_state, lfw_register_hooks, lfw_unregister_hooks,
  lfw_mod_init, lfw_mod_exit, rolls_back,
}

-- All that the module holds while it runs.
abbrev pub running : List Part
running = hooks ∷ device ∷ packet_log ∷ hop_count_state ∷ bogon_state ∷ netlink ∷ state_memory ∷ []

-- How a start may end.
abbrev pub Starts : Codes → Type 0
Starts c =
    (held : List Part) × (ret : ℤ) × (lfw_mod_init c [] ≡ some (held, ret))
    × (((ret ≡ pos 0) × (held ≡ running) × (lfw_mod_exit held ≡ some []))
        ⊎ ((is_neg ret ≡ true) × (held ≡ [])))

start-fields :
    (allocated : Bool) (nl bg hcf log : ℤ) (found : Bool) (hook : ℤ)
    → is_pos hook ≡ false
    → Starts (record {
      allocated = allocated;
      nl_init = nl;
      init_bg_state = bg;
      hcf_init_state = hcf;
      init_pkt_filter_log_state = log;
      device_found = found;
      nf_register_net_hooks = hook;
    })
unfolding lfw_mod_init lfw_mod_exit lfw_init_state lfw_free_state lfw_register_hooks
    lfw_unregister_hooks release_all release
start-fields false nl bg hcf log found hook h = (_, _, refl, inr (refl, refl))
start-fields true (negsuc n) bg hcf log found hook h = (_, _, refl, inr (refl, refl))
start-fields true (pos a) (negsuc n) hcf log found hook h = (_, _, refl, inr (refl, refl))
start-fields true (pos a) (pos b) (negsuc n) log found hook h = (_, _, refl, inr (refl, refl))
start-fields true (pos a) (pos b) (pos c) (negsuc n) found hook h = (_, _, refl, inr (refl, refl))
start-fields true (pos a) (pos b) (pos c) (pos d) false hook h = (_, _, refl, inr (refl, refl))
start-fields true (pos a) (pos b) (pos c) (pos d) true (negsuc n) h = (_, _, refl, inr (refl, refl))
start-fields true (pos a) (pos b) (pos c) (pos d) true (pos zero) h =
    (_, _, refl, inl (refl, refl, refl))
start-fields true (pos a) (pos b) (pos c) (pos d) true (pos (suc n)) h = cc

-- If the kernel's hook registration returns 0 or a negative error number, a start of the module
-- releases nothing that it does not hold, and either returns 0 with everything acquired, which the
-- exit then releases completely, or returns a negative number with nothing held.
pub lfw_mod_init-Starts : (c : Codes) → is_pos c.nf_register_net_hooks ≡ false → Starts c
lfw_mod_init-Starts c h =
    start-fields c.allocated c.nl_init c.init_bg_state c.hcf_init_state c.init_pkt_filter_log_state
      c.device_found c.nf_register_net_hooks h

-- Is the code of a result negative?
code_of : Option (List Part × ℤ) → Bool
code_of none = false
code_of (some (held, ret)) = is_neg ret

failed-code :
    {A : Type 0} (held held' : List Part) (n : ℕ)
    → ◌≡◌ {A = Option (List Part × ℤ)} (some (held', negsuc n)) (some (held, pos 0))
    → A
failed-code held held' n e = cc

-- After a start that returns 0, no initialisation of a subsystem has failed.
init-fields :
    (allocated : Bool) (nl bg hcf log : ℤ) (found : Bool) (hook : ℤ) (held : List Part)
    → lfw_mod_init
        (record {
          allocated = allocated;
          nl_init = nl;
          init_bg_state = bg;
          hcf_init_state = hcf;
          init_pkt_filter_log_state = log;
          device_found = found;
          nf_register_net_hooks = hook;
        })
        []
      ≡ some (held, pos 0)
    → (is_neg bg ≡ false) × (is_neg hcf ≡ false) × (is_neg log ≡ false)
unfolding lfw_mod_init lfw_init_state release_all release
init-fields false nl bg hcf log found hook held run = cc
init-fields true (negsuc n) bg hcf log found hook held run = failed-code held [] n run
init-fields true (pos a) (negsuc n) hcf log found hook held run = failed-code held [] n run
init-fields true (pos a) (pos b) (negsuc n) log found hook held run = failed-code held [] n run
init-fields true (pos a) (pos b) (pos c) (negsuc n) found hook held run = failed-code held [] n run
init-fields true (pos a) (pos b) (pos c) (pos d) found hook held run = (refl, refl, refl)

pub lfw_mod_init-subsystems :
    (c : Codes) (held : List Part)
    → lfw_mod_init c [] ≡ some (held, pos 0)
    → (is_neg c.init_bg_state ≡ false)
      × (is_neg c.hcf_init_state ≡ false)
      × (is_neg c.init_pkt_filter_log_state ≡ false)
lfw_mod_init-subsystems c held run =
    init-fields c.allocated c.nl_init c.init_bg_state c.hcf_init_state c.init_pkt_filter_log_state
      c.device_found c.nf_register_net_hooks held run

rolled-fields :
    (allocated : Bool) (nl bg hcf log : ℤ) (found : Bool) (hook : ℤ) (held : List Part) (ret : ℤ)
    → lfw_mod_init
        (record {
          allocated = allocated;
          nl_init = nl;
          init_bg_state = bg;
          hcf_init_state = hcf;
          init_pkt_filter_log_state = log;
          device_found = found;
          nf_register_net_hooks = hook;
        })
        []
      ≡ some (held, ret)
    → rolls_back (record {
      allocated = allocated;
      nl_init = nl;
      init_bg_state = bg;
      hcf_init_state = hcf;
      init_pkt_filter_log_state = log;
      device_found = found;
      nf_register_net_hooks = hook;
    })
      ≡ true
    → (is_neg log ≡ false) × ((found && not (is_nonzero hook)) ≡ false) × (is_neg ret ≡ true)
unfolding lfw_mod_init lfw_init_state lfw_free_state lfw_register_hooks release_all release
    rolls_back code_of
rolled-fields false nl bg hcf log found hook held ret run h = cc
rolled-fields true (negsuc n) bg hcf log found hook held ret run h = cc
rolled-fields true (pos a) (negsuc n) hcf log found hook held ret run h = cc
rolled-fields true (pos a) (pos b) (negsuc n) log found hook held ret run h = cc
rolled-fields true (pos a) (pos b) (pos c) (negsuc n) found hook held ret run h = cc
rolled-fields true (pos a) (pos b) (pos c) (pos d) false hook held ret run h =
    (refl, refl, sym (ap code_of run))
rolled-fields true (pos a) (pos b) (pos c) (pos d) true (negsuc n) held ret run h =
    (refl, refl, sym (ap code_of run))
rolled-fields true (pos a) (pos b) (pos c) (pos d) true (pos zero) held ret run h = cc
rolled-fields true (pos a) (pos b) (pos c) (pos d) true (pos (suc n)) held ret run h = cc

-- A start that releases the subsystems again was refused the device or the hooks.
pub lfw_mod_init-rolled :
    (c : Codes) (held : List Part) (ret : ℤ)
    → lfw_mod_init c [] ≡ some (held, ret)
    → rolls_back c ≡ true
    → (is_neg c.init_pkt_filter_log_state ≡ false)
      × ((c.device_found && not (is_nonzero c.nf_register_net_hooks)) ≡ false)
      × (is_neg ret ≡ true)
lfw_mod_init-rolled c held ret run h =
    rolled-fields c.allocated c.nl_init c.init_bg_state c.hcf_init_state c.init_pkt_filter_log_state
      c.device_found c.nf_register_net_hooks held ret run h
