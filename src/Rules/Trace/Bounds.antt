-- ===== src/Rules/Trace/Bounds.antt =====
-- What every trace of scripts keeps.
use stack_lens.Base.Tests.{
  &&-eq-true, ℕ, zero, suc, ◌≤◌, ◌≡◌, Bool, true, false, ◌||◌, Option, none, some, List, [], ◌∷◌,
  ◌++◌, ◌==◌, leb, or_else, arith, Bool-cases, inl, inr,
}
use stack_lens.Base.Lists.{All, All-append, select, length, length-append_one}
use stack_lens.Base.Text.{Text}
use stack_lens.Base.Table.{mem}
use stack_lens.Base.Distinct.{AreDistinct, append-AreDistinct_one}
use stack_lens.Rules.Scripts.{static_commands}
use stack_lens.Rules.Trace.Commands.{Purpose, Script, Member, Root, Act, find_script, has_purpose}
use stack_lens.Rules.Trace.Acts.{acts_of}
use stack_lens.Rules.Trace.{
  Trace, Run, add_reason, key_of, enter, leave, run_each, run_commands, expand, invoke, perform_all,
  command, levels, invoke_each, empty, trace_scripts,
}
use stack_lens.Rules.Trace.Allowed.{is_declared, are_allowed, acts_of-allowed}

pub record IsBounded (root : Root) (t : Trace) : Type 0 where
  pub distinct : AreDistinct t.visited
  pub few : length t.visited ≤ 256
  pub declared : All (λ e. is_declared root e ≡ true) t.executions

module _ (root : Root) where
  add_reason-IsBounded :
      (reason : Text) (t : Trace) → IsBounded root t → IsBounded root (add_reason reason t)
  add_reason-IsBounded reason t v = elim (Bool-cases (mem reason t.reasons)) [
    | inl e ↦ rw e v
    | inr e ↦ rw e (record { distinct = v.distinct; few = v.few; declared = v.declared })
  ]

  abbrev Keeps : Run → Type 0
  Keeps run =
      (m : Member) (script : Text) (tokens : List Text) (t : Trace)
      → IsBounded root t
      → IsBounded root (run m script tokens t)

  run_each-IsBounded :
      (run : Run) (m : Member) (script : Text) (commands : List (List Text)) (t : Trace)
      → Keeps run
      → IsBounded root t
      → IsBounded root (run_each run m script commands t)
  run_each-IsBounded run m script [] t keeps v = v
  run_each-IsBounded run m script (tokens ∷ rest) t keeps v =
      run_each-IsBounded run m script rest (run m script tokens t) keeps (keeps m script tokens t v)

  run_commands-IsBounded :
      (run : Run) (m : Member) (script : Text) (o : Option (List (List Text))) (t : Trace)
      → Keeps run
      → IsBounded root t
      → IsBounded root (run_commands run m script o t)
  run_commands-IsBounded run m script none t keeps v = add_reason-IsBounded _ t v
  run_commands-IsBounded run m script (some commands) t keeps v =
      run_each-IsBounded run m script commands t keeps v

  expand-IsBounded :
      (run : Run) (m : Member) (script : Text) (o : Option Script) (t : Trace)
      → Keeps run
      → IsBounded root t
      → IsBounded root (expand run m script o t)
  expand-IsBounded run m script none t keeps v = add_reason-IsBounded _ t v
  expand-IsBounded run m script (some s) t keeps v =
      run_commands-IsBounded run m script (static_commands s.command) t keeps v

  enter-IsBounded :
      (key : Text) (t : Trace)
      → mem key t.visited ≡ false
      → leb 256 (length t.visited) ≡ false
      → IsBounded root t
      → IsBounded root (enter key t)
  enter-IsBounded key t new room v = record {
    distinct = append-AreDistinct_one t.visited key v.distinct new;
    few = (let l = length-append_one t.visited key in ground arith);
    declared = v.declared;
  }

  leave-IsBounded : (key : Text) (t : Trace) → IsBounded root t → IsBounded root (leave key t)
  leave-IsBounded key t v = record { distinct = v.distinct; few = v.few; declared = v.declared }

  invoke-IsBounded :
      (left : ℕ) (run : Run) (m : Member) (script : Text) (t : Trace)
      → Keeps run
      → IsBounded root t
      → IsBounded root (invoke left run m script t)
  unfolding invoke
  invoke-IsBounded left run m script t keeps v =
      let key = key_of m script in
      elim (Bool-cases (left == 0 || mem key t.active || leb 256 (length t.visited))) [
        | inl e ↦ rw e (add_reason-IsBounded _ t v)
        | inr e ↦ elim (Bool-cases (mem key t.visited)) [
          | inl e' ↦ rw (e, e') v
          | inr e' ↦
              rw (e, e')
                (leave-IsBounded key (expand run m script (find_script script m) (enter key t)) (
                  expand-IsBounded run m script (find_script script m) (enter key t) keeps
                    (enter-IsBounded key t e' (ground (arith, e)) v)))
        ]
      ]

  perform_all-IsBounded :
      (left : ℕ) (run : Run) (script : Text) (acts : List Act) (t : Trace)
      → Keeps run
      → are_allowed root acts ≡ true
      → IsBounded root t
      → IsBounded root (perform_all left run script acts t)
  perform_all-IsBounded left run script [] t keeps h v = v
  perform_all-IsBounded left run script (Act.give_reason reason ∷ rest) t keeps h v =
      perform_all-IsBounded left run script rest _ keeps h (add_reason-IsBounded reason t v)
  perform_all-IsBounded left run script (Act.execute e ∷ rest) t keeps h v =
      let (declared, allowed) = &&-eq-true (is_declared root e) (are_allowed root rest) h in
      perform_all-IsBounded left run script rest
        (record t { executions = t.executions ++ (e ∷ []) }) keeps allowed
        (record {
          distinct = v.distinct;
          few = v.few;
          declared =
              All-append (λ e. is_declared root e ≡ true) t.executions (e ∷ []) v.declared
                (declared, tt);
        })
  perform_all-IsBounded left run script (Act.invoke_script m task ∷ rest) t keeps h v =
      perform_all-IsBounded left run script rest _ keeps h
        (invoke-IsBounded left run m task t keeps v)
  perform_all-IsBounded left run script (Act.run_tokens m tokens ∷ rest) t keeps h v =
      perform_all-IsBounded left run script rest _ keeps h (keeps m script tokens t v)

  command-IsBounded :
      (minimatch : Text → Text → Bool) (left : ℕ) → Keeps (command minimatch root left)
  unfolding command
  command-IsBounded minimatch zero m script tokens t v = add_reason-IsBounded _ t v
  command-IsBounded minimatch (suc left) m script tokens t v =
      perform_all-IsBounded left (command minimatch root left) script
        (acts_of root minimatch m script tokens) t (command-IsBounded minimatch left)
        (acts_of-allowed root minimatch m script tokens) v

  invoke_each-IsBounded :
      (minimatch : Text → Text → Bool) (m : Member) (scripts : List Script) (t : Trace)
      → IsBounded root t
      → IsBounded root (invoke_each minimatch root m scripts t)
  invoke_each-IsBounded minimatch m [] t v = v
  invoke_each-IsBounded minimatch m (s ∷ rest) t v = invoke_each-IsBounded minimatch m rest _ (
      invoke-IsBounded levels (command minimatch root levels) m s.name t
        (command-IsBounded minimatch levels) v)

-- However the scripts of a package refer to each other, the trace enters each script of each
-- member at most once and at most 256 of them, and every execution that it reports is of a tool
-- that a package at its path or above declares outside of its peer dependencies, or is node's own
-- test runner.
pub trace_scripts-IsBounded :
    (minimatch : Text → Text → Bool) (root : Root) (m : Member) (purpose : Purpose)
    → IsBounded root (trace_scripts minimatch root m purpose)
unfolding trace_scripts
trace_scripts-IsBounded minimatch root m purpose =
    invoke_each-IsBounded root minimatch m (select (has_purpose purpose) (or_else m.scripts []))
      empty (record { distinct = tt; few = omega arith; declared = tt })
