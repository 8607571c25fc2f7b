-- ===== src/TraceIntegrity/Pointer.antt =====
-- The JSON pointers of mutations (`_pointer_parent` of src/agent_reliability_lab/trace_integrity.py)
-- as lists of tokens.
use Prim.Native.Char.{Char, code}
use coding_agent_reliability.Base.{
  ◌&&◌, List, [], ◌∷◌, map, String, string_eq, nat_eq, ◌==◌, if◌then◌else◌, Result, ok, err, Error,
}

abbrev pub slash : Char
slash = "/"

abbrev pub tilde : Char
tilde = "~"

-- `text.replace(first + second, new)` for two different characters.
unfoldable pub replace_pair : Char → Char → Char → String → String
replace_pair first second new String.[] = String.[]
replace_pair first second new (String.◌∷◌ c String.[]) = String.◌∷◌ c String.[]
replace_pair first second new (String.◌∷◌ c (String.◌∷◌ d s)) =
    let replaced = String.◌∷◌ new (replace_pair first second new s) in
    let kept = String.◌∷◌ c (replace_pair first second new (String.◌∷◌ d s)) in
    if code c == code first && code d == code second then replaced else kept

-- `token.replace("~1", "/").replace("~0", "~")`
unfoldable pub unescape : String → String
unfolding replace_pair
unescape token = replace_pair tilde "0" tilde (replace_pair tilde "1" slash token)

abbrev pub onto_first : Char → List String → List String
onto_first c [] = String.◌∷◌ c String.[] ∷ []
onto_first c (token ∷ tokens) = String.◌∷◌ c token ∷ tokens

-- `text.split("/")`, which is never empty.
unfoldable pub split_slash : String → List String
split_slash String.[] = "" ∷ []
split_slash (String.◌∷◌ c s) =
    let rest = split_slash s in if code c == code slash then "" ∷ rest else onto_first c rest

-- `if not tokens or tokens == [""]: raise ValueError`
abbrev pub child_tokens : List String → Result (List String)
child_tokens [] = err Error.value_error
child_tokens (String.[] ∷ []) = err Error.value_error
child_tokens (String.◌∷◌ c s ∷ []) = ok (String.◌∷◌ c s ∷ [])
child_tokens (token ∷ other ∷ tokens) = ok (token ∷ other ∷ tokens)

-- The tokens of an absolute pointer.
unfoldable pub pointer_tokens : String → Result (List String)
unfolding split_slash unescape
pointer_tokens String.[] = err Error.value_error
pointer_tokens (String.◌∷◌ c s) =
    if code c == code slash
    then child_tokens (map unescape (split_slash s))
    else err Error.value_error
