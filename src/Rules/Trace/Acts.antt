-- ===== src/Rules/Trace/Acts.antt =====
-- What one command of a script asks for: package managers, turbo and runners
-- (packages/rules-javascript/src/script-graph.ts, `traceScripts`: `command`).
use stack_lens.Base.Tests.{
  Bool, true, false, not, ◌&&◌, ◌||◌, Option, none, some, List, [], ◌∷◌, map, ◌==◌, is_some,
  if◌then◌else◌,
}
use stack_lens.Base.Lists.{select, length}
use stack_lens.Base.Text.{Text, text, ◌===◌}
use stack_lens.Base.Table.{mem}
use stack_lens.Rules.Trace.Commands.{
  Purpose, Member, Root, Act, Runner, Options, refused, exec, run, path_of, has_path, has_script,
  starts_with, runner_of, declared_tool, head_is, includes_any, drop, packages_of, find_script,
  selector_test, options,
}

abbrev pub is_flag : Text → Bool
is_flag t = starts_with (text "-") t

abbrev only : Text → List Act
only reason = Act.give_reason reason ∷ []

-- One member that a package manager's task is for.
abbrev pub task_act : Text → Text → List Text → Member → Act
task_act executable task tokens m =
    if has_script task m
    then (if length tokens == 0
        then Act.invoke_script m task
        else Act.give_reason
            (text "Forwarded script arguments may override the delegated execution path."))
    else if not (executable === text "npm") && is_some (runner_of task)
    then Act.run_tokens m (task ∷ tokens)
    else Act.give_reason (text "A delegated script or executable is unavailable.")

abbrev pub task_acts : Text → List Member → List Text → List Act
task_acts executable targets [] = only (text "Package-manager invocation is unsupported.")
task_acts executable targets (task ∷ tokens) =
    if is_flag task
    then only (text "Package-manager invocation is unsupported.")
    else map (task_act executable task tokens) targets

-- A `run` or `run-script` before the task is passed over.
abbrev pub without_run : List Text → List Text
without_run [] = []
without_run (t ∷ rest) = if t === text "run" || t === text "run-script" then rest else t ∷ rest

abbrev pub option_acts : Text → Options → List Act
option_acts executable refused = only (text "Workspace selector is unsupported or has no matches.")
option_acts executable (exec targets tokens) = map (λ m. Act.run_tokens m tokens) targets
option_acts executable (run targets tokens) = task_acts executable targets (without_run tokens)

-- A known runner whose arguments make it do something else.
abbrev pub is_other_use : Text → List Text → Bool
is_other_use executable tokens =
    (executable === text "playwright" && not (head_is (text "test" ∷ []) tokens))
    || (executable === text "cypress" && not (head_is (text "run" ∷ text "open" ∷ []) tokens))
    || (executable === text "biome" && not (head_is (text "lint" ∷ text "check" ∷ []) tokens))
    || (executable === text "tsc" && mem (text "--noCheck") tokens)

abbrev pub tells_only : Text → List Text → Bool
tells_only executable tokens =
    includes_any
      (text "--version" ∷ text "--help" ∷ text "-h" ∷ text "--listTests" ∷ text "--showConfig" ∷ [])
      tokens
    || (executable === text "vitest"
        && head_is (text "list" ∷ text "bench" ∷ text "init" ∷ []) tokens)

module _ (root : Root) where
  abbrev pub turbo_invokes : Text → List Member → List Act
  turbo_invokes task [] = only (text "Turbo task did not resolve to any member scripts.")
  turbo_invokes task (m ∷ ms) = map (λ t. Act.invoke_script t task) (m ∷ ms)

  module _ (minimatch : Text → Text → Bool) where
    abbrev pub narrowed : Option (Member → Bool) → (List Member → List Act) → List Member → List Act
    narrowed none k targets = only (text "Turbo selector is unsupported.")
    narrowed (some is_match) k targets = k (select is_match targets)

    -- The loop over turbo's options; `true` when the next word is a selector.
    unfoldable pub turbo_options : Text → Bool → List Member → List Text → List Act
    unfolding select ◌===◌
    turbo_options task true targets [] = only (text "Turbo selector is unsupported.")
    turbo_options task true targets (s ∷ rest) =
        narrowed (selector_test minimatch root s) (λ ms. turbo_options task false ms rest) targets
    turbo_options task false targets [] = turbo_invokes task targets
    turbo_options task false targets (flag ∷ rest) =
        if flag === text "--filter"
        then turbo_options task true targets rest
        else if starts_with (text "--filter=") flag
        then narrowed (selector_test minimatch root (drop 9 flag))
            (λ ms. turbo_options task false ms rest) targets
        else only (text "Turbo options are outside supported static delegation.")

    -- The members that turbo runs a task in.
    abbrev pub turbo_targets : Member → Text → List Member
    turbo_targets m task =
        select (λ t. not (has_path (path_of m) t) && has_script task t) (packages_of root)

    abbrev pub turbo_task : Member → List Text → List Act
    turbo_task m [] = only (text "Turbo task is unresolved.")
    turbo_task m (task ∷ rest) =
        if is_flag task
        then only (text "Turbo task is unresolved.")
        else turbo_options task false (turbo_targets m task) rest

    abbrev pub turbo_acts : Member → List Text → List Act
    turbo_acts m [] = only (text "Only static turbo run tasks are supported.")
    turbo_acts m (t ∷ rest) =
        if t === text "run"
        then turbo_task m rest
        else only (text "Only static turbo run tasks are supported.")

  abbrev pub execution : Member → Text → Text → List Text → Purpose → Option Text → List Act
  execution m script executable tokens purpose dependency =
      if is_other_use executable tokens
      then []
      else Act.execute (record {
        package_path = path_of m;
        script = script;
        executable = executable;
        arguments = tokens;
        purpose = purpose;
        dependency = dependency;
      })
        ∷ []

  abbrev pub runs_node_test : Text → List Text → Bool
  runs_node_test executable tokens = executable === text "node" && mem (text "--test") tokens

  abbrev pub runner_acts : Member → Text → Text → List Text → Option Runner → List Act
  runner_acts m script executable tokens none =
      if runs_node_test executable tokens
      then execution m script executable tokens Purpose.test none
      else only (text "A command is outside the supported static runner conventions.")
  runner_acts m script executable tokens (some r) =
      if declared_tool root (path_of m) r.dependency
      then execution m script executable tokens
          (if runs_node_test executable tokens then Purpose.test else r.purpose) (some r.dependency)
      else only (text "The runner is not declared in the package or an ancestor.")

  unfoldable pub acts_of : (Text → Text → Bool) → Member → Text → List Text → List Act
  unfolding options turbo_options declared_tool runner_of find_script
  acts_of minimatch m script [] = []
  acts_of minimatch m script (executable ∷ tokens) =
      if mem executable (text "echo" ∷ text "printf" ∷ text "true" ∷ [])
      then []
      else if mem executable (text "npm" ∷ text "pnpm" ∷ text "yarn" ∷ [])
      then option_acts executable (options minimatch root executable false (m ∷ []) tokens)
      else if executable === text "turbo"
      then (if declared_tool root (path_of m) (text "turbo")
          then turbo_acts minimatch m tokens
          else only (text "Turbo is not declared in the package or an ancestor."))
      else if tells_only executable tokens
      then []
      else runner_acts m script executable tokens (runner_of executable)
