-- ===== src/Main/Arguments.antt =====
-- The arguments of the command line (calrissian/main.py): their defaults, what files say of them, and
-- what the command line says.
pub mod Precedence
use calrissian.Prelude.{
  Bool, true, false, not, ◌&&◌, Option, none, some, List, [], ◌∷◌, ◌++◌, if◌then◌else◌,
}
use calrissian.Text.{Text, codes, eq_text}
use calrissian.Text.Dict.{TextDict, lookup, update, last_value, or_value}
use calrissian.Job.Runner.Bindings.{join_path}
use calrissian.Job.Pod.Build.{if_filled}

-- A value is None or a text; a flag that is set is a text that is not empty.
abbrev pub Value : Type 0
Value = Option Text

-- argparse: the defaults, and the options on the command line in their order.
pub record Parser : Type 0 where
  pub defaults : TextDict Value
  pub given : List (Text × Value)

abbrev pub Namespace : Type 0
Namespace = Text → Value

abbrev pub or_missing : Option Value → Value
or_missing none = none
or_missing (some v) = v

-- `parser.parse_args()`: an option on the command line goes before its default.
unfoldable pub parse_args : Parser → Namespace
unfolding last_value lookup
parse_args p key = or_missing (or_value (last_value key p.given) (lookup key p.defaults))

unfoldable pub set_defaults : List (Text × Value) → Parser → Parser
unfolding update
set_defaults pairs p = record p { defaults = update pairs p.defaults }

abbrev pub is_set : Value → Bool
is_set none = false
is_set (some []) = false
is_set (some (_ ∷ _)) = true

-- Reading a JSON file: it is not there, it is read, or there is another exception.
pub data Load : Type 0 where
  missing broken : Load
  loaded : List (Text × Value) → Load

pub record Home : Type 0 where
  pub directory : Option Text
  pub load : Text → Load

abbrev pub unless_missing : Load → Option (List (Text × Value))
unless_missing missing = some []
unless_missing broken = none
unless_missing (loaded pairs) = some pairs

abbrev pub if_loaded : Load → Option (List (Text × Value))
if_loaded missing = none
if_loaded broken = none
if_loaded (loaded pairs) = some pairs

abbrev pub default_json : Text → Text
default_json home = join_path (join_path home (codes ".calrissian")) (codes "default.json")

abbrev pub read_home : Home → Option Text → Option (List (Text × Value))
read_home h none = some []
read_home h (some home) = unless_missing (h.load (default_json home))

-- What `default.json` says. It is left out where HOME is not set or the file is not there.
unfoldable pub home_defaults : Home → Option (List (Text × Value))
unfolding join_path
home_defaults h = read_home h h.directory

abbrev pub read_conf : Home → Option Text → Option (List (Text × Value))
read_conf h none = some []
read_conf h (some file) = if_loaded (h.load file)

-- `args.conf[0]`, where options of that name are collected.
abbrev pub first_conf : List (Text × Value) → Option Text
first_conf [] = none
first_conf ((key, value) ∷ given) =
    let rest = first_conf given in if eq_text key (codes "conf") then value else rest

unfoldable pub conf_defaults : Home → Parser → Option (List (Text × Value))
unfolding eq_text
conf_defaults h p = read_conf h (first_conf p.given)

-- The arguments, or how the process ends.
pub data Parsed : Type 0 where
  exits_with_success exits_with_failure raised : Parsed
  parsed : Namespace → Parsed

abbrev pub checked : Namespace → Parsed
checked args =
    if is_set (args (codes "version"))
    then exits_with_success
    else if is_set (args (codes "max_ram")) && is_set (args (codes "max_cores"))
    then parsed args
    else exits_with_failure

abbrev pub with_defaults :
    Parser → Option (List (Text × Value)) → Option (List (Text × Value)) → Parsed
with_defaults p none _ = raised
with_defaults p (some home) none = raised
with_defaults p (some home) (some conf) =
    checked (parse_args (set_defaults conf (set_defaults home p)))

unfoldable pub parse_arguments : Home → Parser → Parsed
unfolding home_defaults conf_defaults parse_args set_defaults
parse_arguments h p = with_defaults p (home_defaults h) (conf_defaults h p)

-- The levels of the logging module.
pub data Level : Type 0 where
  debug info warning critical : Level

unfoldable pub get_log_level : Namespace → Level
get_log_level args =
    if is_set (args (codes "quiet"))
    then critical
    else if is_set (args (codes "verbose"))
    then info
    else if is_set (args (codes "debug"))
    then debug
    else warning
