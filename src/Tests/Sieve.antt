-- ===== src/Tests/Sieve.antt =====
-- A script of two rules, and the filters of a mailbox.
use justmail.Prelude.{
  ◌≡◌, true, [], ◌∷◌, ◌++◌, map, Option, none, some, Text, codes, text_eq, text_eq_refl, refl,
  if◌then◌else◌, ok, err, forbidden,
}
use justmail.Prelude.Table.{has}
use justmail.Prelude.Texts.{includes}
use justmail.Store.{FilterRow}
use justmail.Orgs.{require_role, find_role}
use justmail.Sieve.{
  subject, contains, Condition, fileinto, stop, all_of, Rule, compile_rule, compile_guarded,
  collect_requires, compile_script, member_of,
}
use justmail.Sieve.Lexer.{ready, lex, includes-OneLine}
use justmail.Sieve.Tokens.{joined, rule_tokens, script_tokens}
use justmail.Sieve.Compiled.{lex-compile_script, compile_rule_injects}
use justmail.Sieve.Requires.{uses, collect_requires_iff}
use justmail.Filters.{
  load_rules, Server, SieveRuleRequest, Reply, resolve_mailbox, create_rule, sync, new_row,
}
use justmail.Filters.Activation.{Activates, script_of, by_create, Done-active}
use justmail.Filters.Order.{create_rule_locked}
use justmail.Tests.Data.{actor, office}

abbrev mentions : Text → Condition
mentions word = record { field = subject; op = contains; value = word }

abbrev file_rule : Rule
file_rule = record {
  name = codes "work";
  match = all_of;
  conditions = mentions (codes "say \"hi\" \\ bye") ∷ mentions (codes "x") ∷ [];
  actions = record { kind = fileinto; arg = some (codes "Work") } ∷ [];
}

abbrev stop_rule : Rule
stop_rule = record {
  name = codes "end";
  match = all_of;
  conditions = [];
  actions = record { kind = stop; arg = none } ∷ [];
}

lex-compile_script_example :
    lex ready (compile_script (file_rule ∷ stop_rule ∷ []))
    ≡ script_tokens (file_rule ∷ stop_rule ∷ [])
unfolding includes
lex-compile_script_example =
    lex-compile_script (file_rule ∷ stop_rule ∷ [])
      (includes-OneLine (codes "work") refl, (includes-OneLine (codes "end") refl, tt))

collect_requires_iff_example :
    member_of (codes "mailbox") (collect_requires (file_rule ∷ stop_rule ∷ []))
    ≡ has (uses (codes "mailbox")) (joined [] (map rule_tokens (file_rule ∷ stop_rule ∷ [])))
collect_requires_iff_example = collect_requires_iff (codes "mailbox") (file_rule ∷ stop_rule ∷ [])

abbrev broken_rule : Rule
broken_rule = record stop_rule { name = codes "x\nredirect \"a@ex.org\";" }

compile_rule_injects_example :
    lex ready (compile_rule broken_rule)
    ≡ lex ready
        (codes "redirect \"a@ex.org\";" ++ (b'\n' ∷ compile_guarded all_of [] stop_rule.actions))
unfolding includes
compile_rule_injects_example =
    compile_rule_injects broken_rule (codes "x") (codes "redirect \"a@ex.org\";")
      (includes-OneLine (codes "x") refl) refl

abbrev nowhere : Server
nowhere address = none

-- A server that takes every script.
abbrev takes : Text → Text → Text → Server → Server × Option Text
takes address password script server =
    ((λ a. if text_eq a address then some script else server a), none)

takes-Activates : Activates takes
takes-Activates address password script server quiet = rw (text_eq_refl address) refl

abbrev request : SieveRuleRequest
request = record { enabled = true; rule = stop_rule }

abbrev created : Reply FilterRow
created = create_rule takes (some (codes "secret")) 9 90 (actor 3) 1 20 request office nowhere

Done-active_example :
    (address : Text) × (resolve_mailbox 9 (actor 3) 1 20 office ≡ ok address)
    × (created.server address ≡ some (script_of 20 created.db))
unfolding create_rule resolve_mailbox require_role find_role sync
Done-active_example =
    Done-active takes (some (codes "secret")) 9 (actor 3) 1 20 office created.db nowhere
      created.server takes-Activates (by_create 90 request (new_row 90 1 20 request office) refl)

abbrev refused : Reply FilterRow
refused = create_rule takes none 9 90 (actor 3) 1 20 request office nowhere

abbrev refused_again : Reply FilterRow
refused_again = create_rule takes none 12 91 (actor 3) 1 20 request refused.db refused.server

create_rule_locked_example :
    (refused.answer ≡ err (forbidden "Mailbox locked"))
    × (refused_again.answer ≡ err (forbidden "Mailbox locked"))
    × (f : FilterRow) × (g : FilterRow) × (load_rules 20 refused.db
        ≡ load_rules 20 office ++ f ∷ [])
    × (load_rules 20 refused_again.db ≡ load_rules 20 office ++ f ∷ g ∷ [])
    × (f.rule ≡ request.rule)
    × (f.enabled ≡ request.enabled)
    × (g.rule ≡ request.rule)
    × (g.enabled ≡ request.enabled)
unfolding resolve_mailbox require_role find_role
create_rule_locked_example =
    create_rule_locked takes 9 90 12 91 (actor 3) 1 20 request office nowhere (codes "a@ex.org")
      refl refl
