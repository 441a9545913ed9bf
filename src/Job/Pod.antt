-- ===== src/Job/Pod.antt =====
-- KubernetesPodBuilder and k8s_safe_name (calrissian/job.py). A text is a list of code points, and a
-- value of a resource or a requirement is the text that `str` makes of it. The random tag of a pod,
-- quoting for the shell and the image named in the environment are arguments.
pub mod Names
pub mod Resources
pub mod Build
pub mod Gpus
use Prim.Native.String.{String}
use calrissian.Prelude.{
  ℕ, ◌+◌, Bool, true, false, not, ◌&&◌, ◌||◌, any, map, Option, none, some, List, [], ◌∷◌, ◌++◌,
  ltb, leb, ◌==◌, if◌then◌else◌,
}
use calrissian.Sort.{sorted}
use calrissian.Text.{Text, codes, lower, eq_text, join}
use calrissian.Text.Dict.{TextDict, lookup, insert}
use calrissian.Job.Volumes.{Volume, Mount}

-- A character that `[^-a-z0-9]` does not match.
abbrev pub is_alphanumeric : ℕ → Bool
is_alphanumeric c = (leb b'a' c && leb c b'z') || (leb b'0' c && leb c b'9')

abbrev pub is_safe : ℕ → Bool
is_safe c = c == b'-' || is_alphanumeric c

abbrev pub safe_char : ℕ → ℕ
safe_char c = if is_safe c then c else b'-'

unfoldable pub k8s_safe_name : Text → Text
unfolding lower
k8s_safe_name name = map safe_char (lower name)

-- A requirement of the job: its class and the counts, which it may lack.
pub record Requirement : Type 0 where
  pub class_name : Text
  pub device_count_min : Option Text
  pub device_count_max : Option Text

pub record PodBuilder : Type 0 where
  pub name : Text
  pub container_image : Text
  pub environment : TextDict Text
  pub volume_mounts : List Mount
  pub volumes : List Volume
  pub command_line : List Text
  pub stdout : Option Text
  pub stderr : Option Text
  pub stdin : Option Text
  pub resources : TextDict Text
  pub labels : List (Text × Text)
  pub nodeselectors : List (Text × Text)
  pub security_context : TextDict Text
  pub serviceaccount : Option Text
  pub requirements : List Requirement

-- `random_tag` gives the tag.
unfoldable pub pod_name : Text → PodBuilder → Text
unfolding k8s_safe_name
pod_name tag b = k8s_safe_name (b.name ++ codes "-pod-" ++ tag)

unfoldable pub container_name : PodBuilder → Text
unfolding k8s_safe_name
container_name b = k8s_safe_name (b.name ++ codes "-container")

unfoldable pub init_container_name : PodBuilder → Text
unfolding k8s_safe_name
init_container_name b = k8s_safe_name (b.name ++ codes "-init")

unfoldable pub container_command : List Text
container_command = codes "/bin/sh" ∷ codes "-c" ∷ []

-- A path that is there and not empty, after an operator.
abbrev redirect : String → Option Text → List Text
redirect operator none = []
redirect operator (some []) = []
redirect operator (some (c ∷ path)) = codes operator ∷ (c ∷ path) ∷ []

unfoldable pub container_args : PodBuilder → List Text
unfolding join
container_args b =
    join (codes " ")
      (b.command_line ++ redirect ">" b.stdout ++ redirect "2>" b.stderr ++ redirect "<" b.stdin)
    ∷ []

-- `os.path.dirname`: the text up to the last slash, less the slashes at its end unless there is
-- nothing else.
abbrev pub is_nil : Text → Bool
is_nil [] = true
is_nil (_ ∷ _) = false

abbrev pub up_to_slash : Text → Text
up_to_slash [] = []
up_to_slash (c ∷ path) =
    let rest = up_to_slash path in if is_nil rest && not (c == b'/') then [] else c ∷ rest

abbrev pub strip_slashes : Text → Text
strip_slashes [] = []
strip_slashes (c ∷ path) =
    let rest = strip_slashes path in if is_nil rest && c == b'/' then [] else c ∷ rest

unfoldable pub dirname : Text → Text
dirname path =
    let head = up_to_slash path in
    let stripped = strip_slashes head in if is_nil stripped then head else stripped

abbrev pub directory : Option Text → List Text
directory none = []
directory (some []) = []
directory (some (c ∷ path)) = let d = dirname (c ∷ path) in if is_nil d then [] else d ∷ []

unfoldable pub container_workingdir : PodBuilder → Option Text
unfolding lookup
container_workingdir b = lookup (codes "HOME") b.environment

pub record InitContainer : Type 0 where
  pub name : Text
  pub image : Text
  pub command : List Text
  pub working_dir : Text
  pub volume_mounts : List Mount

abbrev pub default_init_image : Text
default_init_image = codes "alpine:3.10"

abbrev or_default : Option Text → Text
or_default none = default_init_image
or_default (some image) = image

module _ (should_quote : Text → Bool) (quote : Text → Text) (init_image : Option Text) where
  unfoldable pub quoted_arg_list : List Text → List Text
  quoted_arg_list [] = []
  quoted_arg_list (arg ∷ args) =
      (if should_quote arg then quote arg else arg) ∷ quoted_arg_list args

  abbrev pub mkdir : Text → Text
  mkdir d = codes "mkdir -p " ++ d ++ codes ";"

  abbrev pub init_container : PodBuilder → List Text → Option Text → Option (List InitContainer)
  init_container b [] home = some []
  init_container b (command ∷ commands) none = none
  init_container b (command ∷ commands) (some home) = some (
      record {
        name = init_container_name b;
        image = or_default init_image;
        command = container_command ++ join (codes " ") (command ∷ commands) ∷ [];
        working_dir = home;
        volume_mounts = b.volume_mounts;
      }
      ∷ [])

  unfoldable pub init_containers : PodBuilder → Option (List InitContainer)
  unfolding quoted_arg_list container_workingdir dirname
  init_containers b =
      init_container b (map mkdir (quoted_arg_list (directory b.stdout ++ directory b.stderr)))
        (container_workingdir b)
