-- ===== src/Tests/Json.antt =====
-- A concrete JSON interface, with a parser for the few texts of the tests.
use tinyllb.Prelude.{
  ℕ, ◌≡◌, refl, ap, Bool, true, Option, none, some, List, [], ◌∷◌, same, bytes_eq, if◌then◌else◌,
}
use Prim.Native.String.{String}
use tinyllb.Prelude.Int.{ℤ, pos}
use tinyllb.Prelude.Float.{scaled}
use tinyllb.Prelude.Text.{bytes}
use tinyllb.Gateway.Json.{Shape, null, boolean, number, string, array, object, Json, IsLawful}

mutual
  pub data Value : Type 0 where
    null_value : Value
    truth : Bool → Value
    integer : ℤ → Value
    word : List ℕ → Value
    items : Items → Value
    members : Members → Value

  pub data Items : Type 0 where
    no_item : Items
    item : Value → Items → Items

  pub data Members : Type 0 where
    no_member : Members
    member : List ℕ → Value → Members → Members

abbrev list_of : Items → List Value
list_of no_item = []
list_of (item v is) = v ∷ list_of is

abbrev items_of : List Value → Items
items_of [] = no_item
items_of (v ∷ vs) = item v (items_of vs)

abbrev pairs_of : Members → List (List ℕ × Value)
pairs_of no_member = []
pairs_of (member k v ms) = (k, v) ∷ pairs_of ms

abbrev members_of : List (List ℕ × Value) → Members
members_of [] = no_member
members_of ((k, v) ∷ ps) = member k v (members_of ps)

list_of-items_of : (vs : List Value) → list_of (items_of vs) ≡ vs
list_of-items_of [] = refl
list_of-items_of (v ∷ vs) = ap (λ t. v ∷ t) (list_of-items_of vs)

pairs_of-members_of : (ps : List (List ℕ × Value)) → pairs_of (members_of ps) ≡ ps
pairs_of-members_of [] = refl
pairs_of-members_of ((k, v) ∷ ps) = ap (λ t. (k, v) ∷ t) (pairs_of-members_of ps)

abbrev shape_of : Value → Shape Value ℤ
shape_of null_value = null
shape_of (truth b) = boolean b
shape_of (integer n) = number n
shape_of (word s) = string s
shape_of (items is) = array (list_of is)
shape_of (members ms) = object (pairs_of ms)

abbrev value_of : Shape Value ℤ → Value
value_of null = null_value
value_of (boolean b) = truth b
value_of (number n) = integer n
value_of (string s) = word s
value_of (array vs) = items (items_of vs)
value_of (object ps) = members (members_of ps)

abbrev pub only : String → Value → Value
only k v = members (member (bytes k) v no_member)

abbrev choices : Value → Value
choices c = only "choices" (items (item c no_item))

-- A streaming request.
abbrev pub request : Value
request = only "stream" (truth true)

abbrev stop_choice : Value
stop_choice = members (
    member (bytes "finish_reason") (word (bytes "stop"))
      (member (bytes "message") (members no_member) no_member))

-- r: a request; c, s: frames with content and with a degenerate stop, which is an answer as well;
-- e: an error; t: a transient error of llama.cpp.
abbrev parse : List ℕ → Option Value
parse s =
    if same s (bytes "r")
    then some request
    else if same s (bytes "c")
    then some (choices (only "delta" (only "content" (word (bytes "hi")))))
    else if same s (bytes "s")
    then some (choices stop_choice)
    else if same s (bytes "e")
    then some (only "error" (word []))
    else if same s (bytes "t")
    then some (
        only "error" (
          members (
            member (bytes "type") (word (bytes "exceed_context_size_error")) (
              member (bytes "n_prompt_tokens") (integer (pos 3))
                (member (bytes "n_ctx") (integer (pos 8)) no_member)))))
    else none

abbrev pub json : Json scaled
json = record {
  Value = Value;
  Number = ℤ;
  shape = shape_of;
  of_shape = value_of;
  from_slice = parse;
  to_vec = λ v. some (bytes "r");
  as_i64 = λ n. some n;
  is_f64 = λ n. true;
  as_f64 = λ n. some n;
  from_f64 = λ n. some n;
}

pub json-IsLawful : IsLawful json
json-IsLawful = record { shape-of_shape = shaped }
  where
    shaped : (s : Shape Value ℤ) → shape_of (value_of s) ≡ s
    shaped null = refl
    shaped (boolean b) = refl
    shaped (number n) = refl
    shaped (string s) = refl
    shaped (array vs) = ap (λ t. array t) (list_of-items_of vs)
    shaped (object ps) = ap (λ t. object t) (pairs_of-members_of ps)
