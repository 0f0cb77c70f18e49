-- ===== src/Format.antt =====
-- `str.format` with plain named fields, as URL templates and summaries use it.
use Prim.Native.Char.{Char, code}
use greenwave.Prelude.{
  String, Option, none, some, Dict, get, ◌==◌, nat_eq, string_eq, ◌<>◌, if◌then◌else◌,
}

-- Outside a field, after `{`, within a field's name, after `}`.
pub data Mode : Type 0 where
  text opened closed : Mode
  name : String → Mode

abbrev char : Char → String
char c = String.◌∷◌ c String.[]

abbrev value_of : Option String → Option (String × Mode)
value_of none = none
value_of (some v) = some (v, text)

-- What one character puts out, and the mode after it. None is a ValueError or a KeyError.
step : Dict String String → Mode → Char → Option (String × Mode)
step fields text c =
    if code c == b'{'
    then some ("", opened)
    else if code c == b'}'
    then some ("", closed)
    else some (char c, text)
step fields opened c =
    if code c == b'{'
    then some ("{", text)
    else if code c == b'}'
    then none
    else some ("", name (char c))
step fields closed c = if code c == b'}' then some ("}", text) else none
step fields (name n) c =
    if code c == b'}' then value_of (get n fields) else some ("", name (n <> char c))

abbrev finish : Mode → Option String
finish text = some ""
finish _ = none

abbrev prepend : String → Option String → Option String
prepend s none = none
prepend s (some t) = some (s <> t)

format_from : Dict String String → Mode → String → Option String
format_from fields mode String.[] = finish mode
format_from fields mode (String.◌∷◌ c s) = elim (step fields mode c) [
  | none ↦ none
  | some (out, next) ↦ prepend out (format_from fields next s)
]

unfoldable pub format : String → Dict String String → Option String
unfolding format_from step
format template fields = format_from fields text template
