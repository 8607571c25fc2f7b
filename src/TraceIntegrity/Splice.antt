-- ===== src/TraceIntegrity/Splice.antt =====
-- What a change at one place of a list leaves alone.
use coding_agent_reliability.Base.{
  ◌≡◌, refl, ap, ℕ, suc, zero, ltb, Bool, true, false, Option, none, some, ℤ, pos, negsuc, List, [],
  ◌∷◌, ◌++◌, length, String, string_eq, codes, Result, ok, arith, if◌then◌else◌,
}
use coding_agent_reliability.Base.Document.{Json, Items, nil, cons, items, count_items}
use coding_agent_reliability.Base.Numeral.{int_of_text}
use coding_agent_reliability.TraceIntegrity.Mutation.{
  place_of_number, list_place, inside_item, remove_item,
}
use coding_agent_reliability.TraceIntegrity.Readback.{map_ok-eq-ok}

-- Of a list, one value has been replaced by one, or by none if it was removed; those before and after
-- it are what they were.
pub record IsSpliced (removes : Bool) (n : ℕ) (vs ws : Items) : Type 0 where
  pub before : List Json
  pub old : Json
  pub here : List Json
  pub after : List Json
  pub had : items vs ≡ before ++ old ∷ after
  pub place : length before ≡ n
  pub has : items ws ≡ before ++ (here ++ after)
  pub size : length here ≡ (if removes then 0 else 1)

IsSpliced-cons :
    (removes : Bool) (n : ℕ) (v : Json) (vs ws : Items)
    → IsSpliced removes n vs ws
    → IsSpliced removes (suc n) (cons v vs) (cons v ws)
unfolding items
IsSpliced-cons removes n v vs ws s = record {
  before = v ∷ s.before;
  old = s.old;
  here = s.here;
  after = s.after;
  had = ap (λ xs. v ∷ xs) s.had;
  place = ap suc s.place;
  has = ap (λ xs. v ∷ xs) s.has;
  size = s.size;
}

pub inside_item-IsSpliced :
    (n : ℕ) (change : Json → Result Json) (vs ws : Items)
    → inside_item n change vs ≡ ok ws
    → IsSpliced false n vs ws
unfolding inside_item items
inside_item-IsSpliced n change nil ws h = cc
inside_item-IsSpliced zero change (cons v vs) ws h =
    let (w, changed, e) = map_ok-eq-ok (λ w. cons w vs) (change v) h in
    record {
      before = [];
      old = v;
      here = w ∷ [];
      after = items vs;
      had = refl;
      place = refl;
      has = ap items e;
      size = refl;
    }
inside_item-IsSpliced (suc n) change (cons v vs) ws h =
    let (us, inner, e) = map_ok-eq-ok (cons v) (inside_item n change vs) h in
    rw e (IsSpliced-cons false n v vs us (inside_item-IsSpliced n change vs us inner))

pub remove_item-IsSpliced :
    (n : ℕ) (vs : Items) → ltb n (count_items vs) ≡ true → IsSpliced true n vs (remove_item n vs)
unfolding remove_item items count_items
remove_item-IsSpliced n nil h = absurd (ground arith)
remove_item-IsSpliced zero (cons v vs) h = record {
  before = [];
  old = v;
  here = [];
  after = items vs;
  had = refl;
  place = refl;
  has = refl;
  size = refl;
}
remove_item-IsSpliced (suc n) (cons v vs) h =
    IsSpliced-cons true n v vs (remove_item n vs) (remove_item-IsSpliced n vs (ground arith))

pub list_place_below :
    (key : String) (vs : Items) (n : ℕ) → list_place key vs ≡ ok n → ltb n (count_items vs) ≡ true
unfolding list_place
list_place_below key vs n h = by_number (int_of_text 10 (codes key)) (count_items vs) n h
  where
    by_number : (o : Option ℤ) (size n : ℕ) → place_of_number o size ≡ ok n → ltb n size ≡ true
    by_number none size n e = cc
    by_number (some (pos m)) size n e = ground arith
    by_number (some (negsuc m)) size n e = ground arith
