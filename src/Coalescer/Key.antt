-- ===== src/Coalescer/Key.antt =====
-- recordKey of coalescer.go: the text that stands for a row's values in some columns.
use batchflow.Prelude.{String, ◌^^◌, List, [], ◌∷◌, Option, none, some, lookup}
use batchflow.Model.{Value, Record, value_at}

-- What fmt prints for a value under the verbs %T and %#v.
pub record Formatter : Type 0 where
  pub type_verb : Value → String
  pub syntax_verb : Value → String

-- %t of `exists`
abbrev pub exists_text : Option Value → String
exists_text none = "false"
exists_text (some v) = "true"

-- One round of the loop: "%s=%t:%T:%#v\x00".
unfoldable pub key_part : Formatter → String → Record → String
unfolding value_at
key_part fmt col row =
    let val = value_at row col in
    col
    ^^ ("="
        ^^ (exists_text (lookup col row)
            ^^ (":" ^^ (fmt.type_verb val ^^ (":" ^^ (fmt.syntax_verb val ^^ "\0"))))))

unfoldable pub record_key : Formatter → Record → List String → String
unfolding key_part
record_key fmt row [] = ""
record_key fmt row (col ∷ cols) = key_part fmt col row ^^ record_key fmt row cols
