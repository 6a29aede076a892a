-- ===== src/Prelude/Text.antt =====
-- What the program uses of Go's strings, strconv and fmt packages, over the native texts.
use Prim.Native.Nat.{ℕ, zero, suc}
use Prim.Native.Char.{Char, code}
use Prim.Native.String.{String, ◌++◌}
use mathlib.Core.Path.{◌≡◌, refl}
use mathlib.Core.Bool.{Bool, true, false}
use mathlib.Core.List.{List, [], ◌∷◌}
use text.Mathlib.Text.{◌==◌}
use batchflow.Prelude.Tests.{ltb, if◌then◌else◌}
use batchflow.Prelude.Tests

infix 50 ◌=~◌
abbrev pub ◌=~◌ : String → String → Bool
s =~ t = s == t

-- strings.HasPrefix
unfoldable pub has_prefix : String → String → Bool
has_prefix String.[] String.[] = true
has_prefix (String.◌∷◌ c s) String.[] = true
has_prefix String.[] (String.◌∷◌ d p) = false
has_prefix (String.◌∷◌ c s) (String.◌∷◌ d p) =
    let rest = has_prefix s p in if Tests.◌==◌ (code c) (code d) then rest else false

-- strings.Contains
unfoldable pub contains : String → String → Bool
unfolding has_prefix
contains String.[] t = has_prefix String.[] t
contains (String.◌∷◌ c s) t =
    let rest = contains s t in if has_prefix (String.◌∷◌ c s) t then true else rest

unfoldable pub contains_any : String → List String → Bool
unfolding contains
contains_any s [] = false
contains_any s (needle ∷ needles) = if contains s needle then true else contains_any s needles

-- strings.Join
unfoldable pub join : List String → String → String
join [] sep = ""
join (x ∷ []) sep = x
join (x ∷ y ∷ xs) sep = x ++ (sep ++ join (y ∷ xs) sep)

-- strings.Repeat
unfoldable pub repeat : String → ℕ → String
repeat s zero = ""
repeat s (suc n) = s ++ repeat s n

-- Whether a text stands in a list, as a Go set built from the list tells.
unfoldable pub member : String → List String → Bool
member s [] = false
member s (t ∷ ts) = if t =~ s then true else member s ts

unfoldable pub count_char : Char → String → ℕ
count_char c String.[] = 0
count_char c (String.◌∷◌ d s) =
    if Tests.◌==◌ (code d) (code c) then suc (count_char c s) else count_char c s

-- strings.ToLower, on the letters whose lower case is an ASCII letter: the 26, and the Kelvin sign
-- and the dotted capital I, which Go's tables send to "k" and "i". Other letters stay as they are,
-- which no search for an ASCII text can tell.
lower_from : String → String → Char → Char
lower_from (String.◌∷◌ u us) (String.◌∷◌ l ls) c =
    let rest = lower_from us ls c in if Tests.◌==◌ (code c) (code u) then l else rest
lower_from _ _ c = c

unfoldable pub to_lower : String → String
unfolding lower_from
to_lower String.[] = String.[]
to_lower (String.◌∷◌ c s) =
    String.◌∷◌ (lower_from "ABCDEFGHIJKLMNOPQRSTUVWXYZKİ" "abcdefghijklmnopqrstuvwxyzki" c)
      (to_lower s)

to_lower_runs : to_lower "Deadlock FOUND" ≡ "deadlock found"
unfolding to_lower
to_lower_runs = refl
