-- ===== src/Main/Laws.antt =====
-- What the command line leaves in the options.
use mathlib.Core.List.{append_assoc, append-nil}
use lpowerprobe.Common.{◌≡◌, ◌∙◌, sym, ap, List, [], ◌∷◌, ◌++◌}
use lpowerprobe.Text.{Text, words}
use lpowerprobe.Options.{Options, set_exec_name, add_arg}
use lpowerprobe.Main.{add_args, read_program}

add_args_lem :
    (args : List Text) (o : Options) → add_args args o ≡ record o { args = o.args ++ args }
unfolding add_args add_arg
add_args_lem [] o = ap (λ t. record o { args = t }) (sym (append-nil o.args))
add_args_lem (arg ∷ args) o =
    add_args_lem args (record o { args = o.args ++ (arg ∷ []) })
    ∙ ap (λ t. record o { args = t }) (append_assoc o.args (arg ∷ []) args)

set_exec_name_lem :
    (name : Text) (o : Options) {token : Text} {tokens : List Text}
    → words name ≡ token ∷ tokens
    → set_exec_name o name ≡ record o { exec_name = token; args = o.args ++ tokens }
unfolding set_exec_name
set_exec_name_lem name o split = rw (set_exec_name, split)

-- If the first argument of the command line holds words, the first of them is the executable; its other words
-- and then the other arguments of the command line are added to the arguments of the program in
-- their order, and the other options stay.
pub read_program_lem :
    (name : Text) (args : List Text) (o : Options) {token : Text} {tokens : List Text}
    → words name ≡ token ∷ tokens
    → read_program (name ∷ args) o
      ≡ record o { exec_name = token; args = o.args ++ (tokens ++ args) }
unfolding read_program
read_program_lem name args o {token} {tokens} split =
    ap (add_args args) (set_exec_name_lem name o split)
    ∙ add_args_lem args (record o { exec_name = token; args = o.args ++ tokens })
    ∙ ap (λ t. record o { exec_name = token; args = t }) (append_assoc o.args tokens args)
