-- ===== src/Sieve.antt =====
-- apps/api/src/webmail/sieve-compile.ts, with the contract of a rule
-- (packages/contracts/src/webmail.ts).
pub mod Lexer
pub mod Requires
pub mod Tokens
pub mod Compiled
use justmail.Prelude.{
  ℕ, Bool, true, false, ◌||◌, List, [], ◌∷◌, ◌++◌, map, Option, none, some, Text, codes, text_eq,
  ◌==◌, if◌then◌else◌,
}
use justmail.Prelude.Table.{select}
use justmail.Prelude.Texts.{join}

-- `SieveConditionField`
pub data Field : Type 0 where
  from to cc_field subject any : Field

-- `SieveConditionOp`
pub data Op : Type 0 where
  contains is matches : Op

-- `SieveCondition`
pub record Condition : Type 0 where
  pub field : Field
  pub op : Op
  pub value : Text

-- `SieveActionType`
pub data ActionType : Type 0 where
  fileinto keep discard seen flag redirect stop : ActionType

-- `SieveAction`
pub record Action : Type 0 where
  pub kind : ActionType
  pub arg : Option Text

-- `SieveMatch`
pub data Match : Type 0 where
  all_of any_of : Match

-- `CompilableRule`
pub record Rule : Type 0 where
  pub name : Text
  pub match : Match
  pub conditions : List Condition
  pub actions : List Action

abbrev pub field_name : Field → Text
field_name from = codes "from"
field_name to = codes "to"
field_name cc_field = codes "cc"
field_name subject = codes "subject"
field_name any = codes "any"

-- `ANY_HEADERS`
abbrev pub any_headers : List Text
any_headers = codes "from" ∷ codes "to" ∷ codes "cc" ∷ codes "subject" ∷ []

-- `OP_TEST`
abbrev pub op_test : Op → Text
op_test contains = codes ":contains"
op_test is = codes ":is"
op_test matches = codes ":matches"

-- `.replace(/c/g, …)` of one code unit.
abbrev pub replace_unit : ℕ → Text → Text → Text
replace_unit c by [] = []
replace_unit c by (d ∷ s) = if d == c then by ++ replace_unit c by s else d ∷ replace_unit c by s

-- The two replacements of `quote`, in their order.
abbrev pub escape : Text → Text
escape s = replace_unit b'"' (b'\\' ∷ b'"' ∷ []) (replace_unit b'\\' (b'\\' ∷ b'\\' ∷ []) s)

-- `quote`
unfoldable pub quote : Text → Text
quote s = b'"' ∷ (escape s ++ b'"' ∷ [])

-- The names a condition searches.
abbrev pub headers : Field → List Text
headers any = any_headers
headers f = field_name f ∷ []

-- `headerList`
abbrev pub header_list : Field → Text
header_list f = b'[' ∷ (join (codes ", ") (map quote (headers f)) ++ b']' ∷ [])

-- `compileCondition`
unfoldable pub compile_condition : Condition → Text
compile_condition c =
    codes "header "
    ++ (op_test c.op ++ (codes " " ++ (header_list c.field ++ (codes " " ++ quote c.value))))

abbrev pub kind_requires : ActionType → List Text
kind_requires fileinto = codes "fileinto" ∷ codes "mailbox" ∷ []
kind_requires seen = codes "imap4flags" ∷ []
kind_requires flag = codes "imap4flags" ∷ []
kind_requires _ = []

-- `actionRequires`
abbrev pub action_requires : Action → List Text
action_requires a = kind_requires a.kind

-- `action.arg ?? ""`
abbrev pub arg_of : Action → Text
arg_of a = elim a.arg [ none ↦ [] | some s ↦ s ]

abbrev pub compile_kind : ActionType → Text → Text
compile_kind fileinto arg = codes "fileinto :create " ++ (quote arg ++ codes ";")
compile_kind keep arg = codes "keep;"
compile_kind discard arg = codes "discard;"
compile_kind seen arg = codes "addflag " ++ (quote (codes "\\Seen") ++ codes ";")
compile_kind flag arg = codes "addflag " ++ (quote arg ++ codes ";")
compile_kind redirect arg = codes "redirect " ++ (quote arg ++ codes ";")
compile_kind stop arg = codes "stop;"

-- `compileAction`
unfoldable pub compile_action : Action → Text
compile_action a = compile_kind a.kind (arg_of a)

abbrev pub indented : Text → Text
indented l = b' ' ∷ b' ' ∷ l

-- `indent`
abbrev pub indent : List Text → Text
indent ls = join (b'\n' ∷ []) (map indented ls)

-- `allof` or `anyof`
abbrev pub match_word : Match → Text
match_word any_of = codes "anyof"
match_word all_of = codes "allof"

-- The one test, or all of them under `allof` or `anyof`.
abbrev pub compile_test : Match → List Condition → Text
compile_test m [] = []
compile_test m (c ∷ []) = compile_condition c
compile_test m (c ∷ d ∷ cs) =
    match_word m
    ++ (codes " (" ++ (join (codes ", ") (map compile_condition (c ∷ d ∷ cs)) ++ codes ")"))

-- The comment with the name of a rule.
abbrev pub rule_header : Text → Text
rule_header name = b'#' ∷ b' ' ∷ name

abbrev pub compile_body : List Action → Text
compile_body actions = indent (map compile_action actions)

-- What follows the comment: the actions, under the test where there are conditions.
abbrev pub compile_guarded : Match → List Condition → List Action → Text
compile_guarded m [] actions = compile_body actions
compile_guarded m (c ∷ cs) actions =
    codes "if "
    ++ (compile_test m (c ∷ cs) ++ (codes " {\n" ++ (compile_body actions ++ codes "\n}")))

-- `compileRule`
unfoldable pub compile_rule : Rule → Text
compile_rule r = rule_header r.name ++ (b'\n' ∷ compile_guarded r.match r.conditions r.actions)

-- `present.has`
abbrev pub member_of : Text → List Text → Bool
member_of x [] = false
member_of x (y ∷ ys) = text_eq y x || member_of x ys

abbrev pub requires_of : List Action → List Text
requires_of [] = []
requires_of (a ∷ rest) = action_requires a ++ requires_of rest

abbrev pub present : List Rule → List Text
present [] = []
present (r ∷ rs) = requires_of r.actions ++ present rs

abbrev pub require_order : List Text
require_order = codes "fileinto" ∷ codes "mailbox" ∷ codes "imap4flags" ∷ []

-- `collectRequires`
unfoldable pub collect_requires : List Rule → List Text
collect_requires rs = select (λ e. member_of e (present rs)) require_order

abbrev pub require_line : List Text → List Text
require_line [] = []
require_line (e ∷ es) =
    (codes "require [" ++ (join (codes ", ") (map quote (e ∷ es)) ++ codes "];")) ∷ []

-- The first line of a script; its dash is one code unit beyond ASCII.
abbrev pub banner : Text
banner =
    codes "# Generated by JustMail " ++ (0x2014 ∷ codes " do not edit; managed via the Filters UI.")

-- `compileScript`
unfoldable pub compile_script : List Rule → Text
compile_script rs =
    join (codes "\n\n") (banner ∷ (require_line (collect_requires rs) ++ map compile_rule rs))
    ++ codes "\n"
