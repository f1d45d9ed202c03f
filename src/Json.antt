-- ===== src/Json.antt =====
-- jsoncpp, which is not part of the repository: the operations on `Json::Value` that the program
-- calls, and what it relies on of their documented behaviour.
pub mod Tree
pub mod Assign
use mdt_dialout_collector.Common.{
  ℕ, Bool, true, false, ◌||◌, Option, none, some, List, [], ◌∷◌, ◌++◌, ◌≡◌, if◌then◌else◌, Partial,
  done, thrown, json_error,
}
use mdt_dialout_collector.Common.Number.{ℤ}
use mdt_dialout_collector.Common.Text.{Bytes, equal, is_empty}

pub record Jsoncpp : Type 1 where
  pub Value : Type 0
  pub Real : Type 0  -- float and double
  pub null : Value  -- Json::Value()
  pub object : Value  -- Json::Value(Json::objectValue)
  pub array : Value  -- Json::Value(Json::arrayValue)
  pub of_string : Bytes → Value
  pub of_bool : Bool → Value
  pub of_uint : ℕ → Value
  pub of_int : ℤ → Value
  pub of_real : Real → Value
  pub is_null : Value → Bool
  pub is_object : Value → Bool
  pub is_array : Value → Bool
  pub is_empty : Value → Bool  -- empty()
  pub member? : Value → Bytes → Option Value  -- isMember and operator[]
  pub set : Value → Bytes → Value → Value  -- v[key] = x
  pub items : Value → List Value  -- the elements, in order
  pub append : Value → Value → Value
  pub as_string : Value → Bytes  -- asString(), of a text
  -- CharReader::parse: it throws a Json::Exception where the text is nested beyond the `stackLimit`
  -- of its builder, which is 1000, and otherwise gives a value or fails
  pub too_deep : Bytes → Bool
  pub parse : Bytes → Option Value
  pub write : Value → Bytes  -- writeString, without indentation, with emitUTF8

-- `reader->parse(...)`, with its exception
abbrev pub read_json : (J : Jsoncpp) → Bytes → Partial (Option J.Value)
read_json J text = if J.too_deep text then thrown json_error else done (J.parse text)

-- the value that is read, or else the text as it is
abbrev pub or_text : (J : Jsoncpp) → Bytes → Option J.Value → J.Value
or_text J text none = J.of_string text
or_text J text (some v) = v

-- A value that takes members: null, which becomes an object, or an object. Likewise for elements.
abbrev pub takes_members : (J : Jsoncpp) → J.Value → Bool
takes_members J v = J.is_null v || J.is_object v

abbrev pub takes_items : (J : Jsoncpp) → J.Value → Bool
takes_items J v = J.is_null v || J.is_array v

pub record IsLawful (J : Jsoncpp) : Type 0 where
  pub null_is_null : J.is_null J.null ≡ true
  pub object_is_object : J.is_object J.object ≡ true
  pub array_is_array : J.is_array J.array ≡ true
  pub member-null : (key : Bytes) → J.member? J.null key ≡ none
  pub member-object : (key : Bytes) → J.member? J.object key ≡ none
  pub items-null : J.items J.null ≡ []
  pub items-array : J.items J.array ≡ []
  pub member-set :
      (v : J.Value) (key : Bytes) (x : J.Value) (j : Bytes)
      → takes_members J v ≡ true
      → J.member? (J.set v key x) j ≡ (if equal key j then some x else J.member? v j)
  pub set_is_object :
      (v : J.Value) (key : Bytes) (x : J.Value)
      → takes_members J v ≡ true
      → J.is_object (J.set v key x) ≡ true
  pub items-append :
      (v x : J.Value) → takes_items J v ≡ true → J.items (J.append v x) ≡ J.items v ++ (x ∷ [])
  pub append_is_array : (v x : J.Value) → takes_items J v ≡ true → J.is_array (J.append v x) ≡ true
  pub as_string-of_string : (s : Bytes) → J.as_string (J.of_string s) ≡ s
  pub empty-null : J.is_empty J.null ≡ true
  pub empty-object : J.is_empty J.object ≡ true
  pub empty-set :
      (v : J.Value) (key : Bytes) (x : J.Value)
      → takes_members J v ≡ true
      → J.is_empty (J.set v key x) ≡ false
  pub empty-append : (v x : J.Value) → takes_items J v ≡ true → J.is_empty (J.append v x) ≡ false
  pub write_not_empty : (v : J.Value) → is_empty (J.write v) ≡ false
