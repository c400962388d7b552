-- ===== src/Rules/Scripts.antt =====
-- The static reading of a script's command (packages/rules-javascript/src/script-graph.ts,
-- `staticCommands`).
pub mod Quoting
use stack_lens.Base.Tests.{
  ℕ, suc, Bool, true, false, not, ◌&&◌, ◌||◌, Option, none, some, List, [], ◌∷◌, ◌++◌, ◌==◌, leb,
  ltb, if◌then◌else◌,
}
use stack_lens.Base.Lists.{any, length}
use stack_lens.Base.Text.{Text, text}

-- The quote that is open.
pub data Quote : Type 0 where
  unquoted single double : Quote

-- What the first of two code units asks of the second: `\`, and the first `&`.
pub data Pending : Type 0 where
  nothing escape second_and : Pending

-- What the loop has read: whole commands, the words of the next, the word, and whether it started.
pub record Reading : Type 0 where
  pub commands : List (List Text)
  pub words : List Text
  pub word : Text
  pub quote : Quote
  pub started : Bool
  pub pending : Pending

-- `$`, the backtick, `\`, `'`, `"`, `;` and `&`
abbrev pub is_dynamic : ℕ → Bool
is_dynamic c = c == 36 || c == 96

abbrev pub is_unsupported : ℕ → Bool
is_unsupported c = any (λ d. c == d) (124 ∷ 38 ∷ 60 ∷ 62 ∷ 10 ∷ 13 ∷ 40 ∷ 41 ∷ 123 ∷ 125 ∷ [])

-- `\s` of a regular expression.
abbrev pub is_space : ℕ → Bool
is_space c =
    (leb 9 c && leb c 13)
    || c == 32
    || c == 160
    || c == 5760
    || (leb 8192 c && leb c 8202)
    || any (λ d. c == d) (8232 ∷ 8233 ∷ 8239 ∷ 8287 ∷ 12288 ∷ 65279 ∷ [])

abbrev pub push : ℕ → Reading → Reading
push c r = record r { word = r.word ++ (c ∷ []); started = true }

-- `flush`
abbrev pub flush : Reading → Reading
flush r = record r {
  words = if r.started then r.words ++ (r.word ∷ []) else r.words;
  word = [];
  started = false;
}

-- The end of a command; one without words is refused.
abbrev pub end_of : Reading → List Text → Option Reading
end_of r [] = none
end_of r (w ∷ ws) = some (record r { commands = r.commands ++ ((w ∷ ws) ∷ []); words = [] })

abbrev pub end_command : Reading → Option Reading
end_command r = end_of (flush r) (flush r).words

abbrev pub quote_of : ℕ → Quote
quote_of c = if c == 39 then Quote.single else if c == 34 then Quote.double else Quote.unquoted

-- A code unit that is not read in another way, and where there is no quote.
abbrev pub plain : ℕ → Reading → Option Reading
plain c r =
    if c == 39 || c == 34
    then some (record r { quote = quote_of c; started = true })
    else if c == 59
    then end_command r
    else if c == 38
    then some (record r { pending = Pending.second_and })
    else if is_unsupported c
    then none
    else if is_space c
    then some (flush r)
    else some (push c r)

abbrev pub quoted : ℕ → ℕ → Reading → Option Reading
quoted q c r =
    if c == q then some (record r { quote = Quote.unquoted; started = true }) else some (push c r)

-- Outside of a word that a quote encloses: `$` and a backtick are refused, and `\` escapes.
abbrev pub unescaped : (ℕ → Reading → Option Reading) → ℕ → Reading → Option Reading
unescaped otherwise c r =
    if is_dynamic c
    then none
    else if c == 92
    then some (record r { pending = Pending.escape })
    else otherwise c r

abbrev pub in_quote : Quote → ℕ → Reading → Option Reading
in_quote Quote.single c r = quoted 39 c r
in_quote Quote.double c r = unescaped (quoted 34) c r
in_quote Quote.unquoted c r = unescaped plain c r

-- One turn of the loop; the second code unit of an escape and of `&&` is a turn of its own.
abbrev pub turn : Pending → ℕ → Reading → Option Reading
turn Pending.nothing c r = in_quote r.quote c r
turn Pending.escape c r = some (push c (record r { pending = Pending.nothing }))
turn Pending.second_and c r =
    if c == 38 then end_command (record r { pending = Pending.nothing }) else none

abbrev pub continued : Option Reading → (Reading → Option Reading) → Option Reading
continued none f = none
continued (some r) f = f r

unfoldable pub read : Text → Reading → Option Reading
read [] r = some r
read (c ∷ s) r = continued (turn r.pending c r) (read s)

abbrev pub commands_of : List (List Text) → Option (List (List Text))
commands_of [] = none
commands_of (c ∷ cs) = some (c ∷ cs)

abbrev pub with_words : List (List Text) → List Text → Option (List (List Text))
with_words cs [] = commands_of cs
with_words cs (w ∷ ws) = commands_of (cs ++ ((w ∷ ws) ∷ []))

abbrev pub is_whole : Reading → Bool
is_whole r = elim r.pending [
  | Pending.nothing ↦ elim r.quote [ Quote.unquoted ↦ true | _ ↦ false ]
  | _ ↦ false
]

abbrev pub finished : Option Reading → Option (List (List Text))
finished none = none
finished (some r) = if is_whole r then with_words r.commands (flush r).words else none

abbrev pub fresh : List (List Text) → List Text → Reading
fresh cs ws = record {
  commands = cs;
  words = ws;
  word = [];
  quote = Quote.unquoted;
  started = false;
  pending = Pending.nothing;
}

unfoldable pub static_commands : Text → Option (List (List Text))
unfolding read
static_commands s = if ltb 16000 (length s) then none else finished (read s (fresh [] []))
