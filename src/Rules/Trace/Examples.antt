-- ===== src/Rules/Trace/Examples.antt =====
-- A package whose test script delegates to a script that runs vitest.
use stack_lens.Base.Tests.{◌≡◌, refl, Bool, false, none, some, [], ◌∷◌, arith}
use stack_lens.Base.Lists.{select}
use stack_lens.Base.Text.{Text, text, ◌===◌}
use stack_lens.Base.Table.{lookup}
use stack_lens.Rules.Scripts.{read, static_commands}
use stack_lens.Rules.Scripts.Quoting.{commands_text, words_of, static_commands-commands_text}
use stack_lens.Rules.Trace.Commands.{
  Purpose, Script, Member, Root, find_script, has_purpose, runner_of, declared_tool, options,
}
use stack_lens.Rules.Trace.Acts.{turbo_options, acts_of}
use stack_lens.Rules.Trace.{TraceState, state_of, invoke, command, trace_scripts}
use stack_lens.Rules.Trace.Bounds.{IsBounded, trace_scripts-IsBounded}

abbrev script : Text → Text → Script
script name command = record { name = name; command = command }

abbrev app : Member
app = record {
  package_path = none;
  package_name = some (text "app");
  dependencies = record { name = text "vitest"; is_peer = false } ∷ [];
  scripts = some (
      script (text "test") (text "echo go && npm run unit")
      ∷ script (text "unit") (text "vitest run")
      ∷ script (text "lint") (text "npm run lint")
      ∷ []);
}

abbrev root : Root
root = record { project = app; workspace_packages = none }

abbrev same : Text → Text → Bool
same name selector = name === selector

passes : state_of Purpose.test (trace_scripts same root app Purpose.test) ≡ TraceState.pass
unfolding state_of trace_scripts command invoke acts_of options turbo_options declared_tool
    runner_of lookup find_script has_purpose static_commands read select ◌===◌
passes = refl

cycle :
    (trace_scripts same root app Purpose.lint).reasons
    ≡ text "Script expansion reached a cycle or resource bound." ∷ []
unfolding state_of trace_scripts command invoke acts_of options turbo_options declared_tool
    runner_of lookup find_script has_purpose static_commands read select ◌===◌
cycle = refl

split :
    static_commands (text "a 'b c' && d\\ e;")
    ≡ some ((text "a" ∷ text "b c" ∷ []) ∷ (text "d e" ∷ []) ∷ [])
unfolding static_commands read
split = refl

dynamic : static_commands (text "a $b") ≡ none
unfolding static_commands read
dynamic = refl

trace_scripts-IsBounded_example : IsBounded root (trace_scripts same root app Purpose.test)
trace_scripts-IsBounded_example = trace_scripts-IsBounded same root app Purpose.test

static_commands-commands_text_example :
    static_commands (commands_text (text "a b", text "" ∷ []) ((text "c", []) ∷ []))
    ≡ some (words_of ((text "a b", text "" ∷ []) ∷ (text "c", []) ∷ []))
static_commands-commands_text_example =
    static_commands-commands_text (text "a b", text "" ∷ []) ((text "c", []) ∷ []) (omega arith)
