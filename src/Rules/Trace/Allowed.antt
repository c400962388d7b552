-- ===== src/Rules/Trace/Allowed.antt =====
-- What a command asks for executes only tools that are declared.
use stack_lens.Base.Tests.{
  ◌≡◌, refl, Bool, true, false, ◌&&◌, Option, none, some, List, [], ◌∷◌, map, arith, if◌then◌else◌,
}
use stack_lens.Base.Lists.{all, select}
use stack_lens.Base.Text.{Text, text, ◌===◌}
use stack_lens.Base.Table.{mem}
use stack_lens.Rules.Trace.Commands.{
  Member, Root, Execution, Act, Runner, Options, refused, exec, run, path_of, runner_of,
  declared_tool, options, selector_test, drop,
}
use stack_lens.Rules.Trace.Acts.{
  acts_of, tells_only, without_run, turbo_targets, task_act, task_acts, option_acts, runner_acts,
  turbo_acts, turbo_task, turbo_options, turbo_invokes, narrowed,
}

abbrev is_declared_at : Root → Text → Option Text → Bool
is_declared_at root path none = true
is_declared_at root path (some dependency) = declared_tool root path dependency

abbrev is_by_node : Option Text → Text → List Text → Bool
is_by_node none executable tokens = executable === text "node" && mem (text "--test") tokens
is_by_node (some dependency) executable tokens = true

-- The tool of an execution is a runner that a package at its path or above declares, or it is
-- node's own test runner.
abbrev pub is_declared : Root → Execution → Bool
is_declared root e =
    is_declared_at root e.package_path e.dependency
    && is_by_node e.dependency e.executable e.arguments

abbrev pub is_allowed : Root → Act → Bool
is_allowed root (Act.give_reason reason) = true
is_allowed root (Act.execute e) = is_declared root e
is_allowed root (Act.invoke_script m task) = true
is_allowed root (Act.run_tokens m tokens) = true

abbrev pub are_allowed : Root → List Act → Bool
are_allowed root acts = all (is_allowed root) acts

-- The acts of a command execute only declared tools.
map-allowed :
    {A : Type 0} (root : Root) (f : A → Act) (xs : List A)
    → ((x : A) → is_allowed root (f x) ≡ true)
    → are_allowed root (map f xs) ≡ true
map-allowed root f [] h = refl
map-allowed root f (x ∷ xs) h = ground (arith, h x, map-allowed root f xs h)

task_act-allowed :
    (root : Root) (executable task : Text) (tokens : List Text) (m : Member)
    → is_allowed root (task_act executable task tokens m) ≡ true
task_act-allowed root executable task tokens m = ground arith

task_acts-allowed :
    (root : Root) (executable : Text) (targets : List Member) (tokens : List Text)
    → are_allowed root (task_acts executable targets tokens) ≡ true
task_acts-allowed root executable targets [] = refl
task_acts-allowed root executable targets (task ∷ tokens) = ground (
  arith,
  map-allowed root (task_act executable task tokens) targets
      (task_act-allowed root executable task tokens),
)

option_acts-allowed :
    (root : Root) (executable : Text) (o : Options)
    → are_allowed root (option_acts executable o) ≡ true
option_acts-allowed root executable refused = refl
option_acts-allowed root executable (exec targets tokens) =
    map-allowed root (λ m. Act.run_tokens m tokens) targets (λ m. refl)
option_acts-allowed root executable (run targets tokens) =
    task_acts-allowed root executable targets (without_run tokens)

turbo_invokes-allowed :
    (root : Root) (task : Text) (targets : List Member)
    → are_allowed root (turbo_invokes root task targets) ≡ true
turbo_invokes-allowed root task [] = refl
turbo_invokes-allowed root task (m ∷ ms) =
    map-allowed root (λ t. Act.invoke_script t task) (m ∷ ms) (λ t. refl)

module _ (root : Root) (minimatch : Text → Text → Bool) where
  narrowed-allowed :
      (o : Option (Member → Bool)) (k : List Member → List Act) (targets : List Member)
      → ((ms : List Member) → are_allowed root (k ms) ≡ true)
      → are_allowed root (narrowed root minimatch o k targets) ≡ true
  narrowed-allowed none k targets h = refl
  narrowed-allowed (some is_match) k targets h = h (select is_match targets)

  turbo_options-allowed :
      (task : Text) (b : Bool) (targets : List Member) (tokens : List Text)
      → are_allowed root (turbo_options root minimatch task b targets tokens) ≡ true
  unfolding turbo_options
  turbo_options-allowed task true targets [] = refl
  turbo_options-allowed task true targets (s ∷ rest) =
      narrowed-allowed (selector_test minimatch root s)
        (λ ms. turbo_options root minimatch task false ms rest) targets
        (λ ms. turbo_options-allowed task false ms rest)
  turbo_options-allowed task false targets [] = turbo_invokes-allowed root task targets
  turbo_options-allowed task false targets (flag ∷ rest) = ground (
    arith,
    turbo_options-allowed task true targets rest,
    narrowed-allowed (selector_test minimatch root (drop 9 flag))
        (λ ms. turbo_options root minimatch task false ms rest) targets
        (λ ms. turbo_options-allowed task false ms rest),
  )

  turbo_task-allowed :
      (m : Member) (tokens : List Text)
      → are_allowed root (turbo_task root minimatch m tokens) ≡ true
  turbo_task-allowed m [] = refl
  turbo_task-allowed m (task ∷ rest) =
      ground (arith, turbo_options-allowed task false (turbo_targets root minimatch m task) rest)

  turbo_acts-allowed :
      (m : Member) (tokens : List Text)
      → are_allowed root (turbo_acts root minimatch m tokens) ≡ true
  turbo_acts-allowed m [] = refl
  turbo_acts-allowed m (t ∷ rest) = ground (arith, turbo_task-allowed m rest)

runner_acts-allowed :
    (root : Root) (m : Member) (script executable : Text) (tokens : List Text) (o : Option Runner)
    → are_allowed root (runner_acts root m script executable tokens o) ≡ true
runner_acts-allowed root m script executable tokens none = ground arith
runner_acts-allowed root m script executable tokens (some r) = ground arith

if_allowed :
    (root : Root) (b : Bool) (xs ys : List Act)
    → are_allowed root xs ≡ true
    → are_allowed root ys ≡ true
    → are_allowed root (if b then xs else ys) ≡ true
if_allowed root true xs ys p q = p
if_allowed root false xs ys p q = q

pub acts_of-allowed :
    (root : Root) (minimatch : Text → Text → Bool) (m : Member) (script : Text) (tokens : List Text)
    → are_allowed root (acts_of root minimatch m script tokens) ≡ true
unfolding acts_of
acts_of-allowed root minimatch m script [] = refl
acts_of-allowed root minimatch m script (executable ∷ tokens) =
    let managed =
      option_acts executable (options minimatch root executable false (m ∷ []) tokens) in
    let turbo =
      if declared_tool root (path_of m) (text "turbo")
      then turbo_acts root minimatch m tokens
      else Act.give_reason (text "Turbo is not declared in the package or an ancestor.") ∷ [] in
    let ran = runner_acts root m script executable tokens (runner_of executable) in
    let known = if tells_only executable tokens then [] else ran in
    let others = if executable === text "turbo" then turbo else known in
    if_allowed root (mem executable (text "echo" ∷ text "printf" ∷ text "true" ∷ [])) []
      (if mem executable (text "npm" ∷ text "pnpm" ∷ text "yarn" ∷ []) then managed else others)
      refl
      (if_allowed root (mem executable (text "npm" ∷ text "pnpm" ∷ text "yarn" ∷ [])) managed others
        (option_acts-allowed root executable
          (options minimatch root executable false (m ∷ []) tokens))
        (if_allowed root (executable === text "turbo") turbo known
          (if_allowed root (declared_tool root (path_of m) (text "turbo"))
            (turbo_acts root minimatch m tokens) _ (turbo_acts-allowed root minimatch m tokens)
            refl)
          (if_allowed root (tells_only executable tokens) [] ran refl
            (runner_acts-allowed root m script executable tokens (runner_of executable)))))
