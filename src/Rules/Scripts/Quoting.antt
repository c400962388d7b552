-- ===== src/Rules/Scripts/Quoting.antt =====
-- Commands that are written with escapes are read as they were.
use stack_lens.Base.Tests.{
  ℕ, ◌≤◌, ◌≡◌, refl, ap, ◌∙◌, sym, true, false, Option, none, some, List, [], ◌∷◌, ◌++◌, ltb, arith,
}
use stack_lens.Base.Lists.{length}
use stack_lens.Base.Text.{Text}
use stack_lens.Rules.Scripts.{
  Quote, Pending, Reading, flush, end_of, turn, continued, read, commands_of, with_words, finished,
  fresh, static_commands,
}

-- Every code unit after `\`, behind an empty quotation.
abbrev escaped : Text → Text
escaped [] = []
escaped (c ∷ s) = 92 ∷ c ∷ escaped s

abbrev quoted_word : Text → Text
quoted_word w = 39 ∷ 39 ∷ escaped w

-- Words with spaces between them, and commands with `;`.
abbrev command_text : Text → List Text → Text
command_text w [] = quoted_word w
command_text w (v ∷ vs) = quoted_word w ++ (32 ∷ command_text v vs)

abbrev pub commands_text : Text × List Text → List (Text × List Text) → Text
commands_text (w, ws) [] = command_text w ws
commands_text (w, ws) (d ∷ ds) = command_text w ws ++ (59 ∷ commands_text d ds)

abbrev pub words_of : List (Text × List Text) → List (List Text)
words_of [] = []
words_of ((w, ws) ∷ ds) = (w ∷ ws) ∷ words_of ds

abbrev within : List (List Text) → List Text → Text → Reading
within cs ws w = record {
  commands = cs;
  words = ws;
  word = w;
  quote = Quote.unquoted;
  started = true;
  pending = Pending.nothing;
}

continued_same :
    (o : Option Reading) (f g h : Reading → Option Reading)
    → ((r : Reading) → f r ≡ continued (g r) h)
    → continued o f ≡ continued (continued o g) h
continued_same none f g h same = refl
continued_same (some r) f g h same = same r

read-append : (s t : Text) (r : Reading) → read (s ++ t) r ≡ continued (read s r) (read t)
unfolding read
read-append [] t r = refl
read-append (c ∷ s) t r =
    continued_same (turn r.pending c r) (read (s ++ t)) (read s) (read t) (λ r'. read-append s t r')

append_one : (w : Text) (c : ℕ) (s : Text) → (w ++ (c ∷ [])) ++ s ≡ w ++ (c ∷ s)
append_one [] c s = refl
append_one (a ∷ w) c s = ap (λ l. a ∷ l) (append_one w c s)

append_nil : (w : Text) → w ++ [] ≡ w
append_nil [] = refl
append_nil (a ∷ w) = ap (λ l. a ∷ l) (append_nil w)

read-escaped :
    (cs : List (List Text)) (ws : List Text) (w s : Text)
    → read (escaped s) (within cs ws w) ≡ some (within cs ws (w ++ s))
unfolding read
read-escaped cs ws w [] = ap (λ v. some (within cs ws v)) (sym (append_nil w))
read-escaped cs ws w (c ∷ s) =
    read-escaped cs ws (w ++ (c ∷ [])) s ∙ ap (λ v. some (within cs ws v)) (append_one w c s)

read-quoted_word :
    (cs : List (List Text)) (ws : List Text) (w : Text)
    → read (quoted_word w) (fresh cs ws) ≡ some (within cs ws w)
unfolding read
read-quoted_word cs ws w = read-escaped cs ws [] w

-- The reading after a command whose first words are `us`.
abbrev ended : List (List Text) → List Text → Text → List Text → Reading
ended cs us w [] = within cs us w
ended cs us w (v ∷ vs) = ended cs (us ++ (w ∷ [])) v vs

read-command_text :
    (cs : List (List Text)) (us : List Text) (w : Text) (ws : List Text)
    → read (command_text w ws) (fresh cs us) ≡ some (ended cs us w ws)
unfolding read
read-command_text cs us w [] = read-quoted_word cs us w
read-command_text cs us w (v ∷ vs) =
    read-append (quoted_word w) (32 ∷ command_text v vs) (fresh cs us)
    ∙ ap (λ o. continued o (read (32 ∷ command_text v vs))) (read-quoted_word cs us w)
    ∙ read-command_text cs (us ++ (w ∷ [])) v vs

-- `;` after a command, and the end of the text.
end_of-append :
    (r : Reading) (us : List Text) (w : Text)
    → end_of r (us ++ (w ∷ []))
      ≡ some (record r { commands = r.commands ++ ((us ++ (w ∷ [])) ∷ []); words = [] })
end_of-append r [] w = refl
end_of-append r (u ∷ us) w = refl

with_words-append :
    (cs : List (List Text)) (us : List Text) (w : Text)
    → with_words cs (us ++ (w ∷ [])) ≡ commands_of (cs ++ ((us ++ (w ∷ [])) ∷ []))
with_words-append cs [] w = refl
with_words-append cs (u ∷ us) w = refl

regroup : (us : List Text) (w : Text) (ws : List Text) → (us ++ (w ∷ [])) ++ ws ≡ us ++ (w ∷ ws)
regroup [] w ws = refl
regroup (u ∷ us) w ws = ap (λ l. u ∷ l) (regroup us w ws)

turn-ended :
    (cs : List (List Text)) (us : List Text) (w : Text) (ws : List Text)
    → turn Pending.nothing 59 (ended cs us w ws) ≡ some (fresh (cs ++ ((us ++ (w ∷ ws)) ∷ [])) [])
turn-ended cs us w [] = end_of-append (flush (within cs us w)) us w
turn-ended cs us w (v ∷ vs) =
    turn-ended cs (us ++ (w ∷ [])) v vs
    ∙ ap (λ l. some (fresh (cs ++ (l ∷ [])) [])) (regroup us w (v ∷ vs))

finished-ended :
    (cs : List (List Text)) (us : List Text) (w : Text) (ws : List Text)
    → finished (some (ended cs us w ws)) ≡ commands_of (cs ++ ((us ++ (w ∷ ws)) ∷ []))
finished-ended cs us w [] = with_words-append cs us w
finished-ended cs us w (v ∷ vs) =
    finished-ended cs (us ++ (w ∷ [])) v vs
    ∙ ap (λ l. commands_of (cs ++ (l ∷ []))) (regroup us w (v ∷ vs))

pending-ended :
    (cs : List (List Text)) (us : List Text) (w : Text) (ws : List Text)
    → (ended cs us w ws).pending ≡ Pending.nothing
pending-ended cs us w [] = refl
pending-ended cs us w (v ∷ vs) = pending-ended cs (us ++ (w ∷ [])) v vs

regroup_commands :
    (cs : List (List Text)) (c : List Text) (ds : List (List Text))
    → (cs ++ (c ∷ [])) ++ ds ≡ cs ++ (c ∷ ds)
regroup_commands [] c ds = refl
regroup_commands (b ∷ cs) c ds = ap (λ l. b ∷ l) (regroup_commands cs c ds)

finished-commands_text :
    (cs : List (List Text)) (d : Text × List Text) (ds : List (Text × List Text))
    → finished (read (commands_text d ds) (fresh cs [])) ≡ commands_of (cs ++ words_of (d ∷ ds))
unfolding read
finished-commands_text cs (w, ws) [] =
    ap finished (read-command_text cs [] w ws) ∙ finished-ended cs [] w ws
finished-commands_text cs (w, ws) (d ∷ ds) =
    let rest = commands_text d ds in
    ap finished (
      read-append (command_text w ws) (59 ∷ rest) (fresh cs [])
      ∙ ap (λ o. continued o (read (59 ∷ rest))) (read-command_text cs [] w ws)
      ∙ ap (λ p. continued (turn p 59 (ended cs [] w ws)) (read rest)) (pending-ended cs [] w ws)
      ∙ ap (λ o. continued o (read rest)) (turn-ended cs [] w ws))
    ∙ finished-commands_text (cs ++ ((w ∷ ws) ∷ [])) d ds
    ∙ ap commands_of (regroup_commands cs (w ∷ ws) (words_of (d ∷ ds)))

-- Commands that are written down are read as they were: whatever words they have, each written as
-- an empty quotation and escapes, with spaces between the words of a command and semicolons between
-- commands, up to 16000 code units.
pub static_commands-commands_text :
    (d : Text × List Text) (ds : List (Text × List Text))
    → length (commands_text d ds) ≤ 16000
    → static_commands (commands_text d ds) ≡ some (words_of (d ∷ ds))
unfolding static_commands
static_commands-commands_text d ds short =
    let within_limit : ltb 16000 (length (commands_text d ds)) ≡ false = ground arith in
    rw within_limit (finished-commands_text [] d ds)
