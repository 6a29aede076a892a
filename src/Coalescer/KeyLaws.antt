-- ===== src/Coalescer/KeyLaws.antt =====
-- recordKey of coalescer.go tells rows apart exactly by the columns that it is given.
use Prim.Native.Char.{Char, code}
use mathlib.Core.Path.{ap₂}
use text.Mathlib.TextLemmas.{
  nil-append, cons-append, append_cancel_left, append_assoc, head-eq_of_cons-eq, tail-eq_of_cons-eq,
}
use batchflow.Prelude.{
  String, ◌^^◌, ◌==◌, ◌≡◌, ◌↔◌, refl, sym, ap, ◌∙◌, Bool, true, false, List, [], ◌∷◌, Option, none,
  some, lookup, arith, eq_iff, All, if◌then◌else◌,
}
use batchflow.Model.{Value, Record, value_at}
use batchflow.Coalescer.Key.{Formatter, record_key, exists_text}

unfoldable pub has_char : Char → String → Bool
has_char c String.[] = false
has_char c (String.◌∷◌ d s) = if code d == code c then true else has_char c s

-- A text ends at the first mark, if the mark is not in it.
split_at_mark :
    (c : Char) (s s' t t' : String)
    → has_char c s ≡ false
    → has_char c s' ≡ false
    → s ^^ (String.◌∷◌ c t) ≡ s' ^^ (String.◌∷◌ c t')
    → (s ≡ s') × (t ≡ t')
unfolding has_char
split_at_mark c String.[] String.[] t t' h h' e = (
  refl,
  tail-eq_of_cons-eq (sym (nil-append (String.◌∷◌ c t)) ∙ e ∙ nil-append (String.◌∷◌ c t')),
)
split_at_mark c String.[] (String.◌∷◌ d s') t t' h h' e = absurd (
    ground (
      arith,
      ap code (
          head-eq_of_cons-eq
            (sym (nil-append (String.◌∷◌ c t)) ∙ e ∙ cons-append d s' (String.◌∷◌ c t'))),
    ))
split_at_mark c (String.◌∷◌ d s) String.[] t t' h h' e = absurd (
    ground (
      arith,
      ap code (
          head-eq_of_cons-eq
            (sym (cons-append d s (String.◌∷◌ c t)) ∙ e ∙ nil-append (String.◌∷◌ c t'))),
    ))
split_at_mark c (String.◌∷◌ d s) (String.◌∷◌ d' s') t t' h h' e =
    let both = sym (cons-append d s (String.◌∷◌ c t)) ∙ e ∙ cons-append d' s' (String.◌∷◌ c t') in
    let (same, rest) =
      split_at_mark c s s' t t' (ground arith) (ground arith) (tail-eq_of_cons-eq both) in
    (cc (same, head-eq_of_cons-eq both), rest)

-- What fmt documents of the two verbs, as far as keys need it: the name of a type has no colon, and
-- a value in Go syntax has no zero byte, since quoted texts escape it.
pub record IsFaithful (fmt : Formatter) : Type 0 where
  pub no_colon : (v : Value) → has_char ":" (fmt.type_verb v) ≡ false
  pub no_zero : (v : Value) → has_char "\0" (fmt.syntax_verb v) ≡ false

abbrev pub is_some : Option Value → Bool
is_some none = false
is_some (some v) = true

-- Two rows show the same in a column: both have it or neither, with values of one type that print alike.
abbrev pub SameAt : Formatter → Record → Record → String → Type 0
SameAt fmt row row' col =
    (is_some (lookup col row) ≡ is_some (lookup col row'))
    × (fmt.type_verb (value_at row col) ≡ fmt.type_verb (value_at row' col))
    × (fmt.syntax_verb (value_at row col) ≡ fmt.syntax_verb (value_at row' col))

exists_no_colon : (o : Option Value) → has_char ":" (exists_text o) ≡ false
unfolding has_char
exists_no_colon none = refl
exists_no_colon (some v) = refl

exists_text_inj : (o o' : Option Value) → exists_text o ≡ exists_text o' → is_some o ≡ is_some o'
exists_text_inj none none e = refl
exists_text_inj (some v) (some w) e = refl
exists_text_inj none (some w) e = ground (arith, eq_iff "false" "true")
exists_text_inj (some v) none e = ground (arith, eq_iff "true" "false")

exists_text_same : (o o' : Option Value) → is_some o ≡ is_some o' → exists_text o ≡ exists_text o'
exists_text_same none none e = refl
exists_text_same (some v) (some w) e = refl
exists_text_same none (some w) e = cc
exists_text_same (some v) none e = cc

-- The texts of one column, in front of whatever follows.
abbrev column_text : String → String → String → String → String → String
column_text col exists ty val rest =
    (col ^^ ("=" ^^ (exists ^^ (":" ^^ (ty ^^ (":" ^^ (val ^^ "\0"))))))) ^^ rest

one-append : (c : Char) (s : String) → (String.◌∷◌ c String.[]) ^^ s ≡ String.◌∷◌ c s
one-append c s = cons-append c String.[] s ∙ ap (λ (t : String). String.◌∷◌ c t) (nil-append s)

abbrev flat_text : String → String → String → String → String → String
flat_text col x ty val rest =
    col ^^ ("=" ^^ (x ^^ (String.◌∷◌ ":" (ty ^^ (String.◌∷◌ ":" (val ^^ (String.◌∷◌ "\0" rest)))))))

flatten : (col x ty val rest : String) → column_text col x ty val rest ≡ flat_text col x ty val rest
flatten col x ty val rest = simp append_assoc (simp (one-append ":", one-append "\0"))

column_text_inj :
    (col x x' ty ty' val val' rest rest' : String)
    → has_char ":" x ≡ false
    → has_char ":" x' ≡ false
    → has_char ":" ty ≡ false
    → has_char ":" ty' ≡ false
    → has_char "\0" val ≡ false
    → has_char "\0" val' ≡ false
    → column_text col x ty val rest ≡ column_text col x' ty' val' rest'
    → (x ≡ x') × (ty ≡ ty') × (val ≡ val') × (rest ≡ rest')
column_text_inj col x x' ty ty' val val' rest rest' hx hx' ht ht' hv hv' e =
    let flat = sym (flatten col x ty val rest) ∙ e ∙ flatten col x' ty' val' rest' in
    let tail = append_cancel_left "=" _ _ (append_cancel_left col _ _ flat) in
    let (same_x, after_x) = split_at_mark ":" x x' _ _ hx hx' tail in
    let (same_ty, after_ty) = split_at_mark ":" ty ty' _ _ ht ht' after_x in
    let (same_val, after_val) = split_at_mark "\0" val val' rest rest' hv hv' after_ty in
    (same_x, same_ty, same_val, after_val)

module _ (fmt : Formatter) (row row' : Record) where
  record_key-same :
      (cols : List String)
      → All (SameAt fmt row row') cols
      → record_key fmt row cols ≡ record_key fmt row' cols
  unfolding record_key
  record_key-same [] h = refl
  record_key-same (col ∷ cols) h =
      ap₂ ◌^^◌ (cc (exists_text_same (lookup col row) (lookup col row') h.0.0, h.0.1, h.0.2))
        (record_key-same cols h.1)

  record_key-apart :
      IsFaithful fmt
      → (cols : List String) → record_key fmt row cols ≡ record_key fmt row' cols
      → All (SameAt fmt row row') cols
  unfolding record_key
  record_key-apart ok [] e = tt
  record_key-apart ok (col ∷ cols) e =
      let parts =
        column_text_inj col (exists_text (lookup col row)) (exists_text (lookup col row'))
          (fmt.type_verb (value_at row col)) (fmt.type_verb (value_at row' col))
          (fmt.syntax_verb (value_at row col)) (fmt.syntax_verb (value_at row' col))
          (record_key fmt row cols) (record_key fmt row' cols) (exists_no_colon (lookup col row))
          (exists_no_colon (lookup col row')) (ok.no_colon (value_at row col))
          (ok.no_colon (value_at row' col)) (ok.no_zero (value_at row col))
          (ok.no_zero (value_at row' col)) e in
      (
        (exists_text_inj (lookup col row) (lookup col row') parts.0, parts.1, parts.2),
        record_key-apart ok cols parts.3,
      )

-- If names of types have no colon and values in Go syntax no zero byte, two rows get one key from
-- recordKey exactly if in each of the columns both have a value or neither has, and the values have
-- one type and one text in Go syntax.
pub record_key-eq_iff :
    (fmt : Formatter) (row row' : Record) (cols : List String)
    → IsFaithful fmt
    → (record_key fmt row cols ≡ record_key fmt row' cols) ↔ All (SameAt fmt row row') cols
record_key-eq_iff fmt row row' cols ok =
    (record_key-apart fmt row row' ok cols, record_key-same fmt row row' cols)
