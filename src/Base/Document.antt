-- ===== src/Base/Document.antt =====
-- JSON documents as Python holds them: the values of `json.loads`, with numbers that are integers.
use coding_agent_reliability.Base.{
  ℕ, ◌≡◌, Bool, true, false, not, ◌&&◌, ◌||◌, Option, none, some, List, [], ◌∷◌, String, string_eq,
  ◌==◌, nat_eq, int_eq, ℤ, pos, if◌then◌else◌, Result, ok, err, Error, contains, suc, arith,
}

-- A dictionary has each key once, in insertion order.
mutual
  pub data Json : Type 0 where
    null : Json
    bool : Bool → Json
    int : ℤ → Json
    text : String → Json
    array : Items → Json
    object : Fields → Json

  pub data Items : Type 0 where
    nil : Items
    cons : Json → Items → Items

  pub data Fields : Type 0 where
    end : Fields
    field : String → Json → Fields → Fields

abbrev pub items : Items → List Json
items nil = []
items (cons v vs) = v ∷ items vs

-- `fields.get(key)`, where a missing key gives None as the value `null` does.
unfoldable pub get : String → Fields → Json
get key end = null
get key (field k v fs) = if k == key then v else get key fs

-- `fields[key]`, with `none` where it raises KeyError.
unfoldable pub find : String → Fields → Option Json
find key end = none
find key (field k v fs) = if k == key then some v else find key fs

-- `key in fields`
unfoldable pub has_key : String → Fields → Bool
has_key key end = false
has_key key (field k v fs) = k == key || has_key key fs

abbrev pub int_of_bool : Bool → ℤ
int_of_bool true = pos 1
int_of_bool false = pos 0

-- `isinstance(value, int)`, with the number; a bool is an int.
abbrev pub as_int : Json → Option ℤ
as_int (bool b) = some (int_of_bool b)
as_int (int n) = some n
as_int _ = none

abbrev pub same_int : ℤ → Option ℤ → Bool
same_int a none = false
same_int a (some b) = a == b

abbrev pub same_bool : Bool → Bool → Bool
same_bool true b = b
same_bool false b = not b

unfoldable pub count_items : Items → ℕ
count_items nil = 0
count_items (cons v vs) = suc (count_items vs)

unfoldable pub count_fields : Fields → ℕ
count_fields end = 0
count_fields (field k v fs) = suc (count_fields fs)

abbrev found_equal : (Json → Bool) → Option Json → Bool
found_equal test none = false
found_equal test (some v) = test v

-- Python's `==`: True equals 1, and dictionaries are compared without their order.
unfoldable mutual
  unfolding find count_fields

  pub json_eq : Json → Json → Bool
  json_eq null null = true
  json_eq (bool a) v = same_int (int_of_bool a) (as_int v)
  json_eq (int a) v = same_int a (as_int v)
  json_eq (text a) (text b) = a == b
  json_eq (array xs) (array ys) = items_eq xs ys
  json_eq (object fs) (object gs) = count_fields fs == count_fields gs && fields_eq fs gs
  json_eq _ _ = false

  pub items_eq : Items → Items → Bool
  items_eq nil nil = true
  items_eq (cons x xs) (cons y ys) = json_eq x y && items_eq xs ys
  items_eq _ _ = false

  pub fields_eq : Fields → Fields → Bool
  fields_eq end gs = true
  fields_eq (field k v fs) gs = found_equal (json_eq v) (find k gs) && fields_eq fs gs

-- `value in texts` for a set of texts: a list or a dictionary cannot be hashed.
abbrev pub member : List String → Json → Result Bool
member texts (text s) = ok (contains s texts)
member texts (array _) = err Error.type_error
member texts (object _) = err Error.type_error
member texts _ = ok false

-- `isinstance(value, str) and value`
abbrev pub is_full_text : Json → Bool
is_full_text (text s) = not (s == "")
is_full_text _ = false

abbrev pub is_text : Json → Bool
is_text (text s) = true
is_text _ = false

abbrev pub is_null : Json → Bool
is_null null = true
is_null _ = false

-- A value that equals a text is that text.
pub json_eq-text : (v : Json) (s : String) → json_eq v (text s) ≡ true → v ≡ text s
unfolding json_eq
json_eq-text null s h = cc
json_eq-text (bool b) s h = cc
json_eq-text (int n) s h = cc
json_eq-text (text t) s h = ground arith
json_eq-text (array xs) s h = cc
json_eq-text (object fs) s h = cc

-- A value that equals a number is that number, or a bool for it.
pub json_eq-int : (v : Json) (n : ℤ) → json_eq v (int n) ≡ true → as_int v ≡ some n
unfolding json_eq
json_eq-int null n h = cc
json_eq-int (bool b) n h = ground arith
json_eq-int (int m) n h = ground arith
json_eq-int (text t) n h = cc
json_eq-int (array vs) n h = cc
json_eq-int (object fs) n h = cc
