-- ===== src/Config/Laws.antt =====
-- What a configuration that `load` gives runs as.
use rathole_pro.Prelude.{◌≡◌, Bool, true, false, List, ℕ, arith}
use rathole_pro.Prelude.Exec.{Result, ok}
use rathole_pro.Config.{Config, RunMode, mode_server, mode_client, load, determine_mode, is_some}

-- Whether the configuration has the section that a mode runs from.
unfoldable pub has_section : RunMode → Config → Bool
has_section mode_server cfg = is_some cfg.server
has_section mode_client cfg = is_some cfg.client

-- Without a flag, the mode that is found for a configuration that `load` gave is one whose
-- section the configuration has.
pub load_runs :
    (unmarshal : List ℕ → Result Config) (file : Result (List ℕ)) (cfg : Config)
    → load unmarshal file ≡ ok cfg
    → has_section (determine_mode cfg false false) cfg ≡ true
unfolding load determine_mode has_section
load_runs unmarshal file cfg e = ground arith
