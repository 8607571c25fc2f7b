-- ===== src/TraceIntegrity/Tokens.antt =====
-- JSON pointers as they are written (RFC 6901), and that the validator's tools read them back.
use Prim.Native.Char.{Char, code}
use Prim.Native.String.{◌++◌ as joined}
use text.Mathlib.TextEquality.{Char-path}
use text.Mathlib.TextLemmas.{cons-append, nil-append, append-nil}
use coding_agent_reliability.Base.{
  ◌≡◌, ◌≢◌, refl, sym, ap, true, false, List, [], ◌∷◌, map, String, string_eq, nat_eq, ℕ_discrete,
  ◌==◌, if◌then◌else◌, ok, Bool-cases, ==-eq, ==_refl, inl, inr, ◌⊎◌,
}
use coding_agent_reliability.TraceIntegrity.Pointer.{
  slash, tilde, replace_pair, unescape, split_slash, child_tokens, pointer_tokens,
}

-- A key as a token: "~0" stands for a tilde and "~1" for a slash.
unfoldable pub escape_key : String → String
escape_key String.[] = String.[]
escape_key (String.◌∷◌ c s) =
    let rest = escape_key s in
    if code c == code tilde
    then String.◌∷◌ tilde (String.◌∷◌ "0" rest)
    else if code c == code slash
    then String.◌∷◌ tilde (String.◌∷◌ "1" rest)
    else String.◌∷◌ c rest

-- The pointer through keys.
unfoldable pub pointer_of : List String → String
unfolding escape_key
pointer_of [] = ""
pointer_of (key ∷ keys) = String.◌∷◌ slash (joined (escape_key key) (pointer_of keys))

-- The key after the slashes are read, with the tildes still escaped.
escape_tilde : String → String
escape_tilde String.[] = String.[]
escape_tilde (String.◌∷◌ c s) =
    let rest = escape_tilde s in
    if code c == code tilde then String.◌∷◌ tilde (String.◌∷◌ "0" rest) else String.◌∷◌ c rest

replace_pair-other :
    (first second new c : Char) (s : String)
    → (code c == code first) ≡ false
    → replace_pair first second new (String.◌∷◌ c s)
      ≡ String.◌∷◌ c (replace_pair first second new s)
unfolding replace_pair
replace_pair-other first second new c String.[] h = refl
replace_pair-other first second new c (String.◌∷◌ d s) h = rw h refl

-- A character with the code of a slash or a tilde is that character.
char_of : (c d : Char) → (code c == code d) ≡ true → d ≡ c
char_of c d h = Char-path d c (sym (==-eq (code c) (code d) h))

replace_pair-match :
    (new : Char) (second : Char) (s : String)
    → replace_pair tilde second new (String.◌∷◌ tilde (String.◌∷◌ second s))
      ≡ String.◌∷◌ new (replace_pair tilde second new s)
unfolding replace_pair ℕ_discrete
replace_pair-match new second s = rw (==_refl (code second)) refl

-- A tilde and a character other than the one looked for stay.
replace_pair-tilde :
    (new second d : Char) (s : String)
    → (code d == code second) ≡ false
    → (code d == code tilde) ≡ false
    → replace_pair tilde second new (String.◌∷◌ tilde (String.◌∷◌ d s))
      ≡ String.◌∷◌ tilde (String.◌∷◌ d (replace_pair tilde second new s))
unfolding replace_pair ℕ_discrete
replace_pair-tilde new second d s h k =
    rw h (ap (String.◌∷◌ tilde) (replace_pair-other tilde second new d s k))

read_slashes : (s : String) → replace_pair tilde "1" slash (escape_key s) ≡ escape_tilde s
unfolding escape_key escape_tilde ℕ_discrete replace_pair
read_slashes String.[] = refl
read_slashes (String.◌∷◌ c s) = elim (Bool-cases (code c == code tilde)) [
  | inl is_tilde ↦
      rw (is_tilde, replace_pair-tilde slash "1" "0" (escape_key s) refl refl)
        (ap (λ t. String.◌∷◌ tilde (String.◌∷◌ "0" t)) (read_slashes s))
  | inr other ↦ elim (Bool-cases (code c == code slash)) [
    | inl is_slash ↦
        rw
          (other, is_slash, replace_pair-match slash "1" (escape_key s), ← char_of c slash is_slash)
          (ap (String.◌∷◌ slash) (read_slashes s))
    | inr plain ↦
        rw (other, plain, replace_pair-other tilde "1" slash c (escape_key s) other)
          (ap (String.◌∷◌ c) (read_slashes s))
  ]
]

read_tildes : (s : String) → replace_pair tilde "0" tilde (escape_tilde s) ≡ s
unfolding escape_tilde replace_pair
read_tildes String.[] = refl
read_tildes (String.◌∷◌ c s) = elim (Bool-cases (code c == code tilde)) [
  | inl is_tilde ↦
      rw (is_tilde, replace_pair-match tilde "0" (escape_tilde s), ← char_of c tilde is_tilde)
        (ap (String.◌∷◌ tilde) (read_tildes s))
  | inr other ↦
      rw (other, replace_pair-other tilde "0" tilde c (escape_tilde s) other)
        (ap (String.◌∷◌ c) (read_tildes s))
]

unescape-escape_key : (s : String) → unescape (escape_key s) ≡ s
unfolding unescape
unescape-escape_key s = rw (read_slashes s) (read_tildes s)

-- A text without a slash.
HasNoSlash : String → Type 0
HasNoSlash String.[] = Unit
HasNoSlash (String.◌∷◌ c s) = ((code c == code slash) ≡ false) × HasNoSlash s

escape_key-HasNoSlash : (s : String) → HasNoSlash (escape_key s)
unfolding escape_key HasNoSlash ℕ_discrete
escape_key-HasNoSlash String.[] = tt
escape_key-HasNoSlash (String.◌∷◌ c s) = elim (Bool-cases (code c == code tilde)) [
  | inl is_tilde ↦ rw is_tilde (refl, (refl, escape_key-HasNoSlash s))
  | inr other ↦ elim (Bool-cases (code c == code slash)) [
    | inl is_slash ↦ rw (other, is_slash) (refl, (refl, escape_key-HasNoSlash s))
    | inr plain ↦ rw (other, plain) (plain, escape_key-HasNoSlash s)
  ]
]

split_slash-last : (s : String) → HasNoSlash s → split_slash s ≡ s ∷ []
unfolding split_slash HasNoSlash
split_slash-last String.[] h = refl
split_slash-last (String.◌∷◌ c s) h = rw (h.0, split_slash-last s h.1) refl

split_slash-first :
    (s rest : String)
    → HasNoSlash s
    → split_slash (joined s (String.◌∷◌ slash rest)) ≡ s ∷ split_slash rest
unfolding split_slash HasNoSlash ℕ_discrete
split_slash-first String.[] rest h = rw nil-append refl
split_slash-first (String.◌∷◌ c s) rest h =
    rw (cons-append c s (String.◌∷◌ slash rest), h.0, split_slash-first s rest h.1) refl

split_slash-pointer_of :
    (key : String) (keys : List String)
    → map unescape (split_slash (joined (escape_key key) (pointer_of keys))) ≡ key ∷ keys
unfolding pointer_of
split_slash-pointer_of key [] =
    rw
      (
        append-nil,
        split_slash-last (escape_key key) (escape_key-HasNoSlash key),
        unescape-escape_key key,
      )
      refl
split_slash-pointer_of key (next ∷ keys) =
    rw (split_slash-first (escape_key key) _ (escape_key-HasNoSlash key), unescape-escape_key key)
      (ap (◌∷◌ key) (split_slash-pointer_of next keys))

child_tokens_lem :
    (key : String) (keys : List String)
    → (key ≢ "") ⊎ (keys ≢ [])
    → child_tokens (key ∷ keys) ≡ ok (key ∷ keys)
child_tokens_lem String.[] [] (inl h) = absurd (h refl)
child_tokens_lem String.[] [] (inr h) = absurd (h refl)
child_tokens_lem (String.◌∷◌ c s) [] h = refl
child_tokens_lem String.[] (next ∷ keys) h = refl
child_tokens_lem (String.◌∷◌ c s) (next ∷ keys) h = refl

-- The pointer through keys is read as exactly these keys, whatever slashes and tildes they hold, but
-- for the single empty key.
pub pointer_tokens-pointer_of :
    (key : String) (keys : List String)
    → (key ≢ "") ⊎ (keys ≢ [])
    → pointer_tokens (pointer_of (key ∷ keys)) ≡ ok (key ∷ keys)
unfolding pointer_tokens pointer_of ℕ_discrete
pointer_tokens-pointer_of key keys h =
    rw (split_slash-pointer_of key keys) (child_tokens_lem key keys h)
