-- ===== src/Tests/Starting.antt =====
-- Starts of the module: the initialisation of hop-count filtering fails, and nothing fails.
use librefw.Base.{true, refl, [], ◌∷◌}
use librefw.Base.Int.{pos, e_nomem}
use librefw.Hcf.{blank}
use librefw.Start.{Codes}
use librefw.Start.Boot.{Grants}
use librefw.Tests.{bump}
use librefw.Start.Rollback.{Starts, lfw_mod_init-Starts}

abbrev no_hop_counts : Codes
no_hop_counts = record {
  allocated = true;
  nl_init = pos 0;
  init_bg_state = pos 0;
  hcf_init_state = e_nomem;
  init_pkt_filter_log_state = pos 0;
  device_found = true;
  nf_register_net_hooks = pos 0;
}

lfw_mod_init-Starts_example : Starts no_hop_counts
lfw_mod_init-Starts_example = lfw_mod_init-Starts no_hop_counts refl

-- Everything is granted.
abbrev granted : Grants
granted = record {
  allocated = true;
  genl_register_family = λ family. pos 0;
  bogon = (true, true, true);
  hcf = (true, true, true);
  hcf_cache = bump blank;
  packet_log = (true, true, true);
  pages = true ∷ [];
  device_found = true;
  nf_register_net_hooks = pos 0;
}
