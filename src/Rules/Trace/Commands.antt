-- ===== src/Rules/Trace/Commands.antt =====
-- What one command of a script asks for (packages/rules-javascript/src/script-graph.ts,
-- `traceScripts`: `command`, `select`, `declaredTool`).
use stack_lens.Base.Tests.{
  ℕ, zero, suc, Bool, true, false, not, ◌&&◌, ◌||◌, Option, none, some, List, [], ◌∷◌, ◌++◌, ◌==◌,
  ltb, or_else, is_some, if◌then◌else◌,
}
use stack_lens.Base.Lists.{any, select, length}
use stack_lens.Base.Text.{Text, text, ◌===◌}
use stack_lens.Base.Table.{Table, mem, lookup}
use stack_lens.Rules.Scripts.{static_commands}

pub data Purpose : Type 0 where
  test lint typecheck : Purpose

abbrev rank : Purpose → ℕ
rank Purpose.test = 0
rank Purpose.lint = 1
rank Purpose.typecheck = 2

abbrev pub is_purpose : Purpose → Purpose → Bool
is_purpose p q = rank p == rank q

pub record Script : Type 0 where
  pub name : Text
  pub command : Text

-- A declared dependency, and whether its group is `peerDependencies`.
pub record Dependency : Type 0 where
  pub name : Text
  pub is_peer : Bool

-- What of a `JavaScriptProjectSnapshot` the trace reads.
pub record Member : Type 0 where
  pub package_path : Option Text
  pub package_name : Option Text
  pub dependencies : List Dependency
  pub scripts : Option (List Script)

pub record Root : Type 0 where
  pub project : Member
  pub workspace_packages : Option (List Member)

-- `workspacePackages`
abbrev pub packages_of : Root → List Member
packages_of root = or_else root.workspace_packages (root.project ∷ [])

pub record Execution : Type 0 where
  pub package_path : Text
  pub script : Text
  pub executable : Text
  pub arguments : List Text
  pub purpose : Purpose
  pub dependency : Option Text

-- What a command does to a trace, one after the other.
pub data Act : Type 0 where
  give_reason : Text → Act
  execute : Execution → Act
  invoke_script : Member → Text → Act
  run_tokens : Member → List Text → Act

pub record Runner : Type 0 where
  pub purpose : Purpose
  pub dependency : Text

-- `member.packagePath ?? "."`
abbrev pub path_of : Member → Text
path_of m = or_else m.package_path (text ".")

-- `member.packagePath === path`
abbrev pub has_path : Text → Member → Bool
has_path path m = elim m.package_path [ none ↦ false | some p ↦ p === path ]

abbrev named : Text → List Script → Option Script
named name [] = none
named name (s ∷ rest) = let later = named name rest in if s.name === name then some s else later

unfoldable pub find_script : Text → Member → Option Script
unfolding ◌===◌
find_script name m = named name (or_else m.scripts [])

abbrev pub has_script : Text → Member → Bool
has_script name m = is_some (find_script name m)

abbrev pub starts_with : Text → Text → Bool
starts_with [] s = true
starts_with (c ∷ p) [] = false
starts_with (c ∷ p) (d ∷ s) = c == d && starts_with p s

abbrev entry : Purpose → Text → Runner
entry purpose dependency = record { purpose = purpose; dependency = dependency }

abbrev pub runners : Table Runner
runners =
    (text "jest", entry Purpose.test (text "jest"))
    ∷ (text "vitest", entry Purpose.test (text "vitest"))
    ∷ (text "mocha", entry Purpose.test (text "mocha"))
    ∷ (text "ava", entry Purpose.test (text "ava"))
    ∷ (text "jasmine", entry Purpose.test (text "jasmine"))
    ∷ (text "tape", entry Purpose.test (text "tape"))
    ∷ (text "playwright", entry Purpose.test (text "@playwright/test"))
    ∷ (text "cypress", entry Purpose.test (text "cypress"))
    ∷ (text "eslint", entry Purpose.lint (text "eslint"))
    ∷ (text "oxlint", entry Purpose.lint (text "oxlint"))
    ∷ (text "biome", entry Purpose.lint (text "@biomejs/biome"))
    ∷ (text "tsc", entry Purpose.typecheck (text "typescript"))
    ∷ []

unfoldable pub runner_of : Text → Option Runner
unfolding lookup ◌===◌
runner_of executable = lookup executable runners

-- `declaredTool`, at the path of a project.
abbrev pub declares : Text → Text → Member → Bool
declares dependency path m =
    (path_of m === path || path_of m === text "." || starts_with (path_of m ++ text "/") path)
    && any (λ d. d.name === dependency && not d.is_peer) m.dependencies

unfoldable pub declared_tool : Root → Text → Text → Bool
unfolding ◌===◌
declared_tool root path dependency = any (declares dependency path) (packages_of root)

abbrev pub head_is : List Text → List Text → Bool
head_is names [] = false
head_is names (t ∷ rest) = mem t names

abbrev pub includes_any : List Text → List Text → Bool
includes_any names tokens = any (λ t. mem t names) tokens

-- `/[!{}[\]\\]|\.\.\.|\^/u`
abbrev pub is_refused_selector : Text → Bool
is_refused_selector [] = false
is_refused_selector (c ∷ s) =
    any (λ d. c == d) (33 ∷ 123 ∷ 125 ∷ 91 ∷ 93 ∷ 92 ∷ 94 ∷ [])
    || starts_with (text "...") (c ∷ s)
    || is_refused_selector s

abbrev pub drop : ℕ → Text → Text
drop zero s = s
drop (suc n) [] = []
drop (suc n) (c ∷ s) = drop n s

abbrev pub after_equals : Text → Text
after_equals [] = []
after_equals (c ∷ s) = if c == 61 then s else after_equals s

-- `/^(test|e2e)(:|$)/u` and the like
abbrev continues : Text → Text → Bool
continues name s = s === name || starts_with (name ++ text ":") s

abbrev pub has_name : Purpose → Text → Bool
has_name Purpose.test s = continues (text "test") s || continues (text "e2e") s
has_name Purpose.lint s = continues (text "lint") s
has_name Purpose.typecheck s =
    continues (text "typecheck") s
    || continues (text "type-check") s
    || continues (text "check-types") s

abbrev runs_for : Purpose → Option Runner → Bool
runs_for purpose none = false
runs_for purpose (some r) = is_purpose r.purpose purpose

abbrev tests_with_node : Purpose → Text → List Text → Bool
tests_with_node purpose executable tokens =
    is_purpose purpose Purpose.test && executable === text "node" && mem (text "--test") tokens

abbrev is_command_for : Purpose → List Text → Bool
is_command_for purpose [] = false
is_command_for purpose (executable ∷ rest) =
    runs_for purpose (runner_of executable)
    || tests_with_node purpose executable (executable ∷ rest)

abbrev are_commands_for : Purpose → Option (List (List Text)) → Bool
are_commands_for purpose none = false
are_commands_for purpose (some commands) = any (is_command_for purpose) commands

-- Which scripts of a package are traced.
unfoldable pub has_purpose : Purpose → Script → Bool
unfolding static_commands runner_of ◌===◌
has_purpose purpose s =
    has_name purpose s.name || are_commands_for purpose (static_commands s.command)

-- What a package manager is asked for.
pub data Options : Type 0 where
  refused : Options
  exec : List Member → List Text → Options
  run : List Member → List Text → Options

module _ (minimatch : Text → Text → Bool) (root : Root) where
  abbrev selects : Text → Member → Bool
  selects selector m =
      if starts_with (text "./") selector
      then minimatch (path_of m) (drop 2 selector)
      else minimatch (or_else m.package_name []) selector

  -- `select`: which members a selector matches; `none` when it is not supported.
  abbrev pub selector_test : Text → Option (Member → Bool)
  selector_test selector =
      if ltb 500 (length selector) || is_refused_selector selector
      then none
      else some (selects selector)

  abbrev pub matched : Option (Member → Bool) → List Member
  matched none = []
  matched (some is_match) = select is_match (packages_of root)

  abbrev pub with_targets : List Member → (List Member → Options) → Options
  with_targets [] k = refused
  with_targets (m ∷ ms) k = k (m ∷ ms)

  abbrev without_dashes : List Text → List Text
  without_dashes [] = []
  without_dashes (t ∷ rest) = if t === text "--" then rest else t ∷ rest

  abbrev is_selector_flag : Text → Text → Bool
  is_selector_flag executable t =
      t === text "--filter"
      || t === text "--workspace"
      || (executable === text "yarn" && t === text "workspace")

  -- The loop over the options; `true` when the next word is a selector.
  unfoldable pub options : Text → Bool → List Member → List Text → Options
  unfolding select ◌===◌
  options executable true targets [] = refused
  options executable true targets (s ∷ rest) =
      with_targets (matched (selector_test s)) (λ ms. options executable false ms rest)
  options executable false targets [] = run targets []
  options executable false targets (t ∷ rest) =
      if t === text "exec"
      then exec targets (without_dashes rest)
      else if mem t (text "-r" ∷ text "--recursive" ∷ text "--workspaces" ∷ [])
      then options executable false (select (λ m. not (has_path (text ".") m)) (packages_of root))
          rest
      else if is_selector_flag executable t
      then options executable true targets rest
      else if starts_with (text "--workspace=") t || starts_with (text "--filter=") t
      then with_targets (matched (selector_test (after_equals t)))
          (λ ms. options executable false ms rest)
      else run targets (t ∷ rest)
