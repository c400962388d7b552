-- ===== src/Rules/Trace.antt =====
-- Which tools the scripts of a package run (packages/rules-javascript/src/script-graph.ts,
-- `traceScripts`). Rules.Trace.Commands has what one command asks for; here scripts are expanded.
pub mod Commands
pub mod Acts
pub mod Allowed
pub mod Bounds
mod Examples
use stack_lens.Base.Tests.{
  ℕ, zero, suc, Bool, true, false, not, ◌&&◌, ◌||◌, Option, none, some, List, [], ◌∷◌, ◌++◌, ◌==◌,
  leb, or_else, if◌then◌else◌,
}
use stack_lens.Base.Lists.{any, select, length}
use stack_lens.Base.Text.{Text, text, ◌===◌}
use stack_lens.Base.Table.{mem}
use stack_lens.Rules.Scripts.{static_commands}
use stack_lens.Rules.Trace.Acts.{acts_of}
use stack_lens.Rules.Trace.Commands.{
  Purpose, Script, Member, Root, Execution, Act, path_of, has_purpose, is_purpose, find_script,
}

pub record Trace : Type 0 where
  pub executions : List Execution
  pub reasons : List Text
  pub visited : List Text
  pub active : List Text

-- `reasons.add`
abbrev pub add_reason : Text → Trace → Trace
add_reason reason t =
    if mem reason t.reasons then t else record t { reasons = t.reasons ++ (reason ∷ []) }

abbrev pub key_of : Member → Text → Text
key_of m script = path_of m ++ (text ":" ++ script)

abbrev pub enter : Text → Trace → Trace
enter key t = record t { visited = t.visited ++ (key ∷ []); active = key ∷ t.active }

-- `active.delete`
abbrev pub leave : Text → Trace → Trace
leave key t = record t { active = select (λ k. not (k === key)) t.active }

-- A command, from a member, the script that has it and its words.
abbrev pub Run : Type 0
Run = Member → Text → List Text → Trace → Trace

abbrev pub run_each : Run → Member → Text → List (List Text) → Trace → Trace
run_each run m script [] t = t
run_each run m script (tokens ∷ rest) t = run_each run m script rest (run m script tokens t)

abbrev pub run_commands : Run → Member → Text → Option (List (List Text)) → Trace → Trace
run_commands run m script none t =
    add_reason (text "A script uses dynamic shell syntax or unsupported operators.") t
run_commands run m script (some commands) t = run_each run m script commands t

abbrev pub expand : Run → Member → Text → Option Script → Trace → Trace
expand run m script none t = add_reason (text "A delegated script is missing.") t
expand run m script (some declaration) t =
    run_commands run m script (static_commands declaration.command) t

-- `invoke`, with `left` levels left of the 17 that a depth of at most 16 allows.
unfoldable pub invoke : ℕ → Run → Member → Text → Trace → Trace
unfolding static_commands select find_script
invoke left run m script t =
    if left == 0 || mem (key_of m script) t.active || leb 256 (length t.visited)
    then add_reason (text "Script expansion reached a cycle or resource bound.") t
    else if mem (key_of m script) t.visited
    then t
    else leave (key_of m script)
        (expand run m script (find_script script m) (enter (key_of m script) t))

abbrev pub perform : ℕ → Run → Text → Act → Trace → Trace
perform left run script (Act.give_reason reason) t = add_reason reason t
perform left run script (Act.execute e) t = record t { executions = t.executions ++ (e ∷ []) }
perform left run script (Act.invoke_script m task) t = invoke left run m task t
perform left run script (Act.run_tokens m tokens) t = run m script tokens t

abbrev pub perform_all : ℕ → Run → Text → List Act → Trace → Trace
perform_all left run script [] t = t
perform_all left run script (a ∷ rest) t =
    perform_all left run script rest (perform left run script a t)

abbrev pub levels : ℕ
levels = 17

abbrev pub empty : Trace
empty = record { executions = []; reasons = []; visited = []; active = [] }

-- `minimatch` is a function of the library that has it.
module _ (minimatch : Text → Text → Bool) (root : Root) where
  -- `command`: what it delegates is one level deeper.
  unfoldable pub command : ℕ → Run
  unfolding invoke acts_of
  command zero m script tokens t = add_reason (text "Script expansion reached a resource bound.") t
  command (suc left) m script tokens t =
      perform_all left (command left) script (acts_of root minimatch m script tokens) t

  abbrev pub invoke_each : Member → List Script → Trace → Trace
  invoke_each m [] t = t
  invoke_each m (s ∷ rest) t = invoke_each m rest (invoke levels (command levels) m s.name t)

  unfoldable pub trace_scripts : Member → Purpose → Trace
  unfolding command invoke
  trace_scripts m purpose =
      invoke_each m (select (has_purpose purpose) (or_else m.scripts [])) empty

pub data TraceState : Type 0 where
  pass fail unknown : TraceState

unfoldable pub state_of : Purpose → Trace → TraceState
state_of purpose t =
    if not (length t.reasons == 0)
    then TraceState.unknown
    else if any (λ e. is_purpose e.purpose purpose) t.executions
    then TraceState.pass
    else TraceState.fail
