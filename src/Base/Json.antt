-- ===== src/Base/Json.antt =====
-- `json.dumps` of arrays of texts, with `ensure_ascii=False` and the separators "," and ":", as code
-- points: its definition, and that no two values share an encoding.
use coding_agent_reliability.Base.{
  ℕ, ◌+◌, ◌-◌, ◌*◌, ◌/◌, ◌%◌, ◌<◌, ◌≡◌, ◌≢◌, refl, ap, Option, none, some, List, [], ◌∷◌, ◌++◌,
  append_assoc, arith, ltb, String, nat_eq, ◌==◌, if◌then◌else◌, codes, codes-injective, sym, ◌∙◌,
}

-- A digit of a lower-case hexadecimal numeral.
hex_digit : ℕ → ℕ
hex_digit n = if ltb n 10 then 48 + n else 87 + n

-- The escape of a character inside quotes.
unfoldable pub escape : ℕ → List ℕ
unfolding hex_digit
escape c =
    if c == b'"'
    then 92 ∷ b'"' ∷ []
    else if c == 92
    then 92 ∷ 92 ∷ []
    else if c == 10
    then 92 ∷ b'n' ∷ []
    else if c == 13
    then 92 ∷ b'r' ∷ []
    else if c == 9
    then 92 ∷ b't' ∷ []
    else if c == 12
    then 92 ∷ b'f' ∷ []
    else if c == 8
    then 92 ∷ b'b' ∷ []
    else if ltb c 32
    then 92 ∷ b'u' ∷ b'0' ∷ b'0' ∷ hex_digit (c / 16) ∷ hex_digit (c % 16) ∷ []
    else c ∷ []

escape_all : List ℕ → List ℕ
escape_all [] = b'"' ∷ []
escape_all (c ∷ cs) = escape c ++ escape_all cs

-- A text in quotes.
unfoldable pub encode_string : String → List ℕ
unfolding escape escape_all
encode_string s = b'"' ∷ escape_all (codes s)

module _ {ℓ} {A : Type ℓ} (encode : A → List ℕ) where
  more_items : List A → List ℕ
  more_items [] = b']' ∷ []
  more_items (x ∷ xs) = b',' ∷ (encode x ++ more_items xs)

  first_item : List A → List ℕ
  first_item [] = b']' ∷ []
  first_item (x ∷ xs) = encode x ++ more_items xs

  -- An array of values.
  unfoldable pub encode_array : List A → List ℕ
  unfolding more_items first_item
  encode_array xs = b'[' ∷ first_item xs

-- The inverse of `escape`, at the head of a text that goes on.
unhex : ℕ → ℕ
unhex h = if ltb h 58 then h - 48 else h - 87

letter : ℕ → ℕ
letter y =
    if y == b'n'
    then 10
    else if y == b'r'
    then 13
    else if y == b't'
    then 9
    else if y == b'f'
    then 12
    else if y == b'b'
    then 8
    else y

read_escape : List ℕ → Option (ℕ × List ℕ)
read_escape (y ∷ a ∷ b ∷ h ∷ l ∷ r) =
    if y == b'u' then some (unhex h * 16 + unhex l, r) else some (letter y, a ∷ b ∷ h ∷ l ∷ r)
read_escape (y ∷ r) = some (letter y, r)
read_escape [] = none

read_char : List ℕ → Option (ℕ × List ℕ)
read_char [] = none
read_char (x ∷ xs) = if x == b'"' then none else if x == 92 then read_escape xs else some (x, xs)

read_letter : (y : ℕ) (r : List ℕ) → y ≢ b'u' → read_escape (y ∷ r) ≡ some (letter y, r)
unfolding read_escape
read_letter y [] h = refl
read_letter y (a ∷ []) h = refl
read_letter y (a ∷ b ∷ []) h = refl
read_letter y (a ∷ b ∷ c ∷ []) h = refl
read_letter y (a ∷ b ∷ c ∷ d ∷ r) h = ground arith

read_hex :
    (h l : ℕ) (r : List ℕ)
    → read_escape (b'u' ∷ b'0' ∷ b'0' ∷ h ∷ l ∷ r) ≡ some (unhex h * 16 + unhex l, r)
unfolding read_escape
read_hex h l r = ground arith

hex_trip : (c : ℕ) → c < 32 → unhex (hex_digit (c / 16)) * 16 + unhex (hex_digit (c % 16)) ≡ c
unfolding unhex hex_digit
hex_trip c h = ground arith

read_char-escape : (c : ℕ) (r : List ℕ) → read_char (escape c ++ r) ≡ some (c, r)
unfolding read_char escape letter
read_char-escape c r = ground (
  arith,
  read_letter b'"' r,
  read_letter 92 r,
  read_letter b'n' r,
  read_letter b'r' r,
  read_letter b't' r,
  read_letter b'f' r,
  read_letter b'b' r,
  read_hex (hex_digit (c / 16)) (hex_digit (c % 16)) r,
  hex_trip c,
)

-- Escapes are told apart at the head of a text, and from the quote that ends it.
escape_unique : (c d : ℕ) (r s : List ℕ) → escape c ++ r ≡ escape d ++ s → (c ≡ d) × (r ≡ s)
escape_unique c d r s h =
    let same : ◌≡◌ {A = Option (ℕ × List ℕ)} (some (c, r)) (some (d, s)) =
      sym (read_char-escape c r) ∙ ap read_char h ∙ read_char-escape d s in
    (cc, cc)

quote_unread : (s : List ℕ) → read_char (b'"' ∷ s) ≡ none
unfolding read_char
quote_unread s = ground arith

escape_not_end : (c : ℕ) (r s : List ℕ) → escape c ++ r ≢ b'"' ∷ s
escape_not_end c r s h = cc (read_char-escape c r, quote_unread s, ap read_char h)

escape_all_unique :
    (cs ds : List ℕ) (r s : List ℕ) → escape_all cs ++ r ≡ escape_all ds ++ s → (cs ≡ ds) × (r ≡ s)
unfolding escape_all
escape_all_unique [] [] r s h = (refl, cc)
escape_all_unique [] (d ∷ ds) r s h =
    absurd (escape_not_end d (escape_all ds ++ s) r (sym (rw append_assoc at h)))
escape_all_unique (c ∷ cs) [] r s h =
    absurd (escape_not_end c (escape_all cs ++ r) s (rw append_assoc at h))
escape_all_unique (c ∷ cs) (d ∷ ds) r s h =
    let (same, rest) = escape_unique c d (escape_all cs ++ r) (escape_all ds ++ s) (
      sym (append_assoc (escape c) (escape_all cs) r)
      ∙ h
      ∙ append_assoc (escape d) (escape_all ds) s) in
    let (all, left) = escape_all_unique cs ds r s rest in (cc, left)

-- An encoding that can be read off at the head of a text, and is never a closing bracket there.
pub record IsCode {ℓ} {A : Type ℓ} (encode : A → List ℕ) : Type ℓ where
  pub unique : (a b : A) (r s : List ℕ) → encode a ++ r ≡ encode b ++ s → (a ≡ b) × (r ≡ s)
  pub not_close : (a : A) (r s : List ℕ) → encode a ++ r ≢ b']' ∷ s

pub encode_string-IsCode : IsCode encode_string
unfolding encode_string
encode_string-IsCode = record {
  unique = λ a b r s h.
      let (same, rest) = escape_all_unique (codes a) (codes b) r s (cc) in
      (codes-injective a b same, rest);
  not_close = λ a r s h. ground arith;
}

module _ {ℓ} {A : Type ℓ} (encode : A → List ℕ) (code : IsCode encode) where
  more_items_unique :
      (xs ys : List A) (r s : List ℕ)
      → more_items encode xs ++ r ≡ more_items encode ys ++ s
      → (xs ≡ ys) × (r ≡ s)
  unfolding more_items
  more_items_unique [] [] r s h = (refl, cc)
  more_items_unique [] (y ∷ ys) r s h = ground arith
  more_items_unique (x ∷ xs) [] r s h = ground arith
  more_items_unique (x ∷ xs) (y ∷ ys) r s h =
      let (same, rest) = code.unique x y (more_items encode xs ++ r) (more_items encode ys ++ s) (
        sym (append_assoc (encode x) (more_items encode xs) r)
        ∙ (cc)
        ∙ append_assoc (encode y) (more_items encode ys) s) in
      let (all, left) = more_items_unique xs ys r s rest in (cc, left)

  first_item_unique :
      (xs ys : List A) (r s : List ℕ)
      → first_item encode xs ++ r ≡ first_item encode ys ++ s
      → (xs ≡ ys) × (r ≡ s)
  unfolding first_item
  first_item_unique [] [] r s h = (refl, cc)
  first_item_unique [] (y ∷ ys) r s h =
      absurd (code.not_close y (more_items encode ys ++ s) r (sym (rw append_assoc at h)))
  first_item_unique (x ∷ xs) [] r s h =
      absurd (code.not_close x (more_items encode xs ++ r) s (rw append_assoc at h))
  first_item_unique (x ∷ xs) (y ∷ ys) r s h =
      let (same, rest) = code.unique x y (more_items encode xs ++ r) (more_items encode ys ++ s) (
        sym (append_assoc (encode x) (more_items encode xs) r)
        ∙ h
        ∙ append_assoc (encode y) (more_items encode ys) s) in
      let (all, left) = more_items_unique xs ys r s rest in (cc, left)

  pub encode_array-IsCode : IsCode (encode_array encode)
  unfolding encode_array
  encode_array-IsCode = record {
    unique = λ a b r s h. first_item_unique a b r s (cc);
    not_close = λ a r s h. ground arith;
  }
