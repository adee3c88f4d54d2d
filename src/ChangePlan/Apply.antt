-- ===== src/ChangePlan/Apply.antt =====
-- The order in which a change plan is applied
-- (`_ordered_for_apply` of data-pipeline/data_pipeline/pipeline/apply.py).
pub mod Ordered
pub mod Parents
use mathlib.Core.Option
use projectree.Base.{
  ℕ, zero, suc, Bool, true, false, not, ◌&&◌, ◌||◌, Option, none, some, List, [], ◌∷◌, String, any,
  length, if◌then◌else◌, str_eq,
}
use projectree.Base.Text.{truthy, text_of}
use projectree.Validation.Rules.{member}
use projectree.Validation.Judgments.{key_leb}
use projectree.ChangePlan.{Command, ParentRef, is_create}

-- `ref in by_item_create`
abbrev pub creates : String → Command → Bool
creates ref c = is_create c.op && str_eq c.item_id ref

abbrev ref_ready : List Command → List String → Option String → Bool
ref_ready commands emitted ref =
    not (truthy ref) || (not (any (creates (text_of ref)) commands) || member (text_of ref) emitted)

abbrev pub parent_ready : List Command → List String → Option ParentRef → Bool
parent_ready commands emitted none = true
parent_ready commands emitted (some parent) = ref_ready commands emitted parent.new_parent_item_id

-- `ready`: the parent is no item that the plan creates, or was emitted.
abbrev pub ready : List Command → List String → Command → Bool
ready commands emitted c = parent_ready commands emitted c.parent

abbrev pub better :
    Command → List Command → Option (Command × List Command) → Option (Command × List Command)
better c cs none = some (c, cs)
better c cs (some (d, ds)) =
    if key_leb c.sort_key d.sort_key then some (c, cs) else some (d, c ∷ ds)

-- The first of the candidates with the least key, and what remains without it.
unfoldable pub pick : (Command → Bool) → List Command → Option (Command × List Command)
pick p [] = none
pick p (c ∷ cs) =
    let rest = pick p cs in if p c then better c cs rest else Option.map (λ r. (r.0, c ∷ r.1)) rest

-- The loop; `none` is the ApplyError of a cycle, or a loop that ran out of fuel.
unfoldable pub emit_ready : ℕ → List Command → List String → List Command → Option (List Command)
emit_ready fuel commands emitted [] = some []
emit_ready zero commands emitted (c ∷ cs) = none
emit_ready (suc fuel) commands emitted (c ∷ cs) = elim (pick (ready commands emitted) (c ∷ cs)) [
  | none ↦ none
  | some (chosen, remaining) ↦
      Option.map (λ ordered. chosen ∷ ordered)
        (emit_ready fuel commands (chosen.item_id ∷ emitted) remaining)
]

-- `_ordered_for_apply`: each round emits one command, so the number of commands is fuel enough.
unfoldable pub ordered_for_apply : List Command → Option (List Command)
unfolding emit_ready
ordered_for_apply commands = emit_ready (length commands) commands [] commands
