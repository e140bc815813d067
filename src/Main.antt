-- ===== src/Main.antt =====
-- go-core/main.go: what a run of the program comes to.
-- `Flags` is what `flag.Parse` gives, with the short and the long flags apart. `read_file` is
-- `os.ReadFile` and `unmarshal` is `toml.Unmarshal`.
pub mod Modes
use rathole_pro.Prelude.{◌≡◌, String, Bool, true, false, ◌||◌, List, ℕ, [], ◌∷◌, if◌then◌else◌}
use rathole_pro.Prelude.Exec.{Err, Result, ok, err}
use rathole_pro.Config.{Config, RunMode, mode_server, mode_client, load, determine_mode}

pub record Flags : Type 0 where
  pub force_server : Bool
  pub force_client : Bool
  pub short_s : Bool
  pub short_c : Bool
  pub validate : Bool
  pub show_version : Bool
  pub gen_key : Bool
  pub args : List String

-- The ends of `main`, and the two calls that it makes.
pub data Action : Type 0 where
  prints_version generates_key prints_usage : Action
  config_error : Err → Action
  config_ok : Action
  runs_server runs_client : Config → Action

abbrev by_mode : RunMode → Config → Action
by_mode mode_server cfg = runs_server cfg
by_mode mode_client cfg = runs_client cfg

-- From the loaded configuration on.
abbrev loaded : Flags → Result Config → Action
loaded f (err e) = config_error e
loaded f (ok cfg) =
    if f.validate
    then config_ok
    else by_mode (determine_mode cfg (f.force_server || f.short_s) (f.force_client || f.short_c))
        cfg

-- From the arguments on.
abbrev with_args :
    (List ℕ → Result Config) → (String → Result (List ℕ)) → Flags → List String → Action
with_args unmarshal read_file f [] = prints_usage
with_args unmarshal read_file f (path ∷ rest) = loaded f (load unmarshal (read_file path))

unfoldable pub main :
    (unmarshal : List ℕ → Result Config) (read_file : String → Result (List ℕ)) → Flags → Action
main unmarshal read_file f =
    if f.show_version
    then prints_version
    else if f.gen_key
    then generates_key
    else with_args unmarshal read_file f f.args
