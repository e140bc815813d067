-- ===== src/Main/Modes.antt =====
-- go-core/main.go: which of the two programs runs, and that its section is there.
use rathole_pro.Prelude.{◌≡◌, String, ◌||◌, List, ℕ, some}
use rathole_pro.Prelude.Exec.{Result, ok}
use rathole_pro.Config.{Config, ServerConfig, RunMode, load, determine_mode}
use rathole_pro.Client.Session.{Worker, client_run}
use rathole_pro.Main.{
  Flags, Action, prints_version, generates_key, prints_usage, config_error, config_ok, runs_server,
  runs_client,
}

module _ (unmarshal : List ℕ → Result Config) (read_file : String → Result (List ℕ)) (f : Flags)
    (cfg : Config) where
  -- What ran was loaded, and is what the modes say.
  abbrev IsLoaded : RunMode → Type 0
  IsLoaded mode =
      (path : String) × (load unmarshal (read_file path) ≡ ok cfg)
      × (determine_mode cfg (f.force_server || f.short_s) (f.force_client || f.short_c) ≡ mode)

-- What runs has the section that it runs from.
abbrev pub FindsSection : Action → Type 0
FindsSection (runs_server cfg) = (sc : ServerConfig) × (cfg.server ≡ some sc)
FindsSection (runs_client cfg) = (ws : List Worker) × (client_run cfg ≡ ok ws)
FindsSection prints_version = Unit {0}
FindsSection generates_key = Unit {0}
FindsSection prints_usage = Unit {0}
FindsSection (config_error e) = Unit {0}
FindsSection config_ok = Unit {0}
