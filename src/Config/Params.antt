-- ===== src/Config/Params.antt =====
-- The maps of parameters that the handlers fill, and what one handler returns.
use text.Mathlib.Text.{◌==◌}
use text.Mathlib.TextEquality.{eq_iff}
use mdt_dialout_collector.Common.{
  String, Bool, true, false, Option, none, some, List, [], ◌∷◌, ◌≡◌, refl, Fault, out_of_range,
  Partial, found_or, if◌then◌else◌, Option-cases, inl, inr, arith, ◌&&◌,
}

-- `std::map<std::string, std::string>`. The program never reads the order of the keys.
abbrev pub Params : Type 0
Params = List (String × String)

-- `m.find(key)`
unfoldable pub find : String → Params → Option String
find key [] = none
find key ((k, v) ∷ m) = if k == key then some v else find key m

-- `m.emplace(key, value)`: a key that is there keeps its value.
unfoldable pub emplace : String → String → Params → Params
unfolding find
emplace key value m = elim (find key m) [ some _ ↦ m | none ↦ (key, value) ∷ m ]

-- What a handler returns: `true` with the map that it filled, `false`, or an exception that it
-- lets through. No caller reads the map after `false`.
pub data Load (A : Type 0) : Type 0 where
  accepted : A → Load A
  rejected : Load A
  threw : Fault → Load A

infixl 5 ◌>>=◌
abbrev pub ◌>>=◌ : {A B : Type 0} → Load A → (A → Load B) → Load B
accepted a >>= f = f a
rejected >>= f = rejected
threw e >>= f = threw e

-- The shape of every result that does not throw: a test and the map behind it.
abbrev pub accept_if : {A : Type 0} → Bool → A → Load A
accept_if test a = if test then accepted a else rejected

-- `m.at(key)`
unfoldable pub at : Params → String → Load String
unfolding find
at m key = elim (find key m) [ some v ↦ accepted v | none ↦ threw out_of_range ]

pub at_of_find :
    (m : Params) (key : String) {v : String} → find key m ≡ some v → at m key ≡ accepted v
unfolding at
at_of_find m key h = rw (h, at)

pub find-emplace :
    (j k v : String) (m : Params)
    → find j (emplace k v m)
      ≡ elim (find j m) [ some w ↦ some w | none ↦ if k == j then some v else none ]
unfolding find emplace
find-emplace j k v m = elim (Option-cases (find k m)) [
  | inl fresh ↦ ground (arith, eq_iff k j)
  | inr (w, found) ↦ ground (arith, eq_iff k j)
]

pub find-emplace_ne :
    (j k v : String) (m : Params) → (k == j) ≡ false → find j (emplace k v m) ≡ find j m
find-emplace_ne j k v m h = rw find-emplace (ground arith)

pub accept_if-inv :
    {A : Type 0} (test : Bool) (a : A) {b : A}
    → accept_if test a ≡ accepted b
    → (test ≡ true) × (a ≡ b)
accept_if-inv test a h = ground arith

pub find-emplace_self :
    (k v : String) (m : Params)
    → find k m ≡ none
    → (k == k) ≡ true
    → find k (emplace k v m) ≡ some v
unfolding find emplace
find-emplace_self k v m fresh same = ground arith

-- `m.at(key)` outside the handlers
unfoldable pub value_at : Params → String → Partial String
unfolding find
value_at m key = found_or out_of_range (find key m)

-- Two checked steps, one behind the other.
pub accept_if-then :
    {A B : Type 0} (first second : Bool) (a : A) (f : A → Load B) (b : B)
    → f a ≡ accept_if second b
    → (accept_if first a >>= f) ≡ accept_if (first && second) b
accept_if-then true second a f b h = h
accept_if-then false second a f b h = refl

pub accept_if-accepted :
    {A B : Type 0} (test : Bool) (a : A) (f : A → Load B) (b : B)
    → f a ≡ accepted b
    → (accept_if test a >>= f) ≡ accept_if test b
accept_if-accepted true a f b h = h
accept_if-accepted false a f b h = refl
