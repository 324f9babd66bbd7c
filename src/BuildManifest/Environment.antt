-- ===== src/BuildManifest/Environment.antt =====
-- capture_build_manifest.py: `_environment`, `_machine_arch`, `_runtime_gate` and
-- `_normalized_command`.
use my_ad.Prelude.{
  ℕ, ◌-◌, String, Bool, true, false, ◌&&◌, ◌||◌, Option, none, some, List, [], ◌∷◌, map, Result, ok,
  err, ◌>>=◌, ◌>>◌, require, str_eq, codes, contains, any, leb, ◌==◌, if◌then◌else◌,
}
use my_ad.PyText.{Text}
use my_ad.ForkDelta.Delta.{starts_with}
use my_ad.ForkProvenance.Report.{precedes}
use my_ad.BuildManifest.Fault.{ManifestFault, not_arm64, no_docker, docker_failed}
use my_ad.BuildManifest.Paths.{FilePath, is_absolute, is_below}

-- A letter as `re.I` compares it with the capitals of the pattern: its own capital, and the four
-- other characters that fold to I, K and S.
abbrev fold_case : ℕ → ℕ
fold_case c =
    if leb b'a' c && leb c b'z'
    then c - 32
    else (if c == 0x130 || c == 0x131
        then b'I'
        else (if c == 0x212a then b'K' else (if c == 0x17f then b'S' else c)))

-- `(TOKEN|SECRET|PASSWORD|CREDENTIAL|PRIVATE_KEY|AUTH)`
abbrev pub secret_words : List String
secret_words = "TOKEN" ∷ "SECRET" ∷ "PASSWORD" ∷ "CREDENTIAL" ∷ "PRIVATE_KEY" ∷ "AUTH" ∷ []

unfoldable pub folded : String → Text
folded key = map fold_case (codes key)

-- whether a text contains a word
unfoldable pub search : Text → Text → Bool
unfolding starts_with
search word [] = starts_with word []
search word (c ∷ s) = starts_with word (c ∷ s) || search word s

-- `secret_pattern.search(key)`
unfoldable pub is_secret : String → Bool
unfolding search folded
is_secret key = any (λ word. search (codes word) (folded key)) secret_words

abbrev pub allowed_prefixes : List String
allowed_prefixes = "CARLA_" ∷ "UE_" ∷ "UNREAL_" ∷ "NVIDIA_" ∷ "DOCKER_" ∷ "CMAKE_" ∷ []

abbrev pub allowed_names : List String
allowed_names =
    "PATH" ∷ "LANG" ∷ "LC_ALL" ∷ "LANGUAGE" ∷ "MAKEFLAGS" ∷ "CC" ∷ "CXX" ∷ "DEBIAN_FRONTEND"
    ∷ "DOTNET_ROOT" ∷ []

unfoldable pub is_allowed : String → Bool
unfolding starts_with
is_allowed key =
    contains key allowed_names
    || any (λ prefix. starts_with (codes prefix) (codes key)) allowed_prefixes

abbrev pub Variables : Type 0
Variables = List (String × String)

-- `sorted(os.environ)`, with the values
unfoldable pub insert_variable : String → String → Variables → Variables
insert_variable key value [] = (key, value) ∷ []
insert_variable key value ((k, v) ∷ variables) =
    let rest = insert_variable key value variables in
    if precedes (codes key) (codes k) then (key, value) ∷ (k, v) ∷ variables else (k, v) ∷ rest

unfoldable pub sort_variables : Variables → Variables
unfolding insert_variable
sort_variables [] = []
sort_variables ((key, value) ∷ variables) = insert_variable key value (sort_variables variables)

pub record Environment : Type 0 where
  pub values : Variables
  pub redacted_keys : List String

-- the loop
unfoldable pub select_variables : Variables → Environment
unfolding is_secret is_allowed
select_variables [] = record { values = []; redacted_keys = [] }
select_variables ((key, value) ∷ variables) =
    let rest = select_variables variables in
    if is_secret key
    then record rest { redacted_keys = key ∷ rest.redacted_keys }
    else (if is_allowed key then record rest { values = (key, value) ∷ rest.values } else rest)

-- `_environment`
unfoldable pub environment : Variables → Environment
unfolding select_variables sort_variables
environment variables = select_variables (sort_variables variables)

-- `_machine_arch`, of the name in lower case
abbrev pub machine_arch : String → String
machine_arch name = if contains name ("aarch64" ∷ "arm64" ∷ "armv8l" ∷ []) then "arm64" else name

-- What the runtime gate asks of the machine: the name of the processor, whether /.dockerenv is a
-- file, whether a Docker CLI is found, and the architecture that `docker info` prints, stripped and in
-- lower case, none where it fails.
pub record Platform : Type 0 where
  pub machine : String
  pub in_container : Bool
  pub has_docker : Bool
  pub docker_info : Option String

pub record Runtime : Type 0 where
  pub host_arch : String
  pub docker_arch : String
  pub container : Bool

-- `_docker_arch`
unfoldable pub docker_arch : Platform → Result ManifestFault String
docker_arch platform = require platform.has_docker no_docker >> (elim platform.docker_info [
  | none ↦ err docker_failed
  | some value ↦ require (contains value ("arm64" ∷ "aarch64" ∷ [])) not_arm64 >> ok "arm64"
])

-- `_runtime_gate`
unfoldable pub runtime_gate : Platform → Result ManifestFault Runtime
unfolding docker_arch
runtime_gate platform =
    let host = machine_arch platform.machine in
    require (str_eq host "arm64") not_arm64
    >> (if platform.in_container
        then ok (record { host_arch = host; docker_arch = "arm64"; container = true })
        else (docker_arch platform >>= λ docker.
            ok (record { host_arch = host; docker_arch = docker; container = false })))

-- `_normalized_command`: the resolved path of an absolute argument, and the text that `_relative`
-- gives for it, are parameters.
unfoldable pub normalized_command :
    (String → FilePath) → (FilePath → String) → FilePath → List String → List String
unfolding is_absolute is_below
normalized_command resolve relative project_root [] = []
normalized_command resolve relative project_root (value ∷ values) =
    let rest = normalized_command resolve relative project_root values in
    if is_absolute value && is_below project_root (resolve value)
    then relative (resolve value) ∷ rest
    else value ∷ rest
