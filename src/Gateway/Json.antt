-- ===== src/Gateway/Json.antt =====
-- JSON values as the gateway reads and writes them. serde_json is an interface: a type of values
-- with the shape of each, the parser and the printer, and the conversions of its numbers.
use tinyllb.Prelude.{ℕ, ◌≡◌, Bool, Option, none, some, List, [], ◌∷◌}
use tinyllb.Prelude.Tests.{bytes_eq}
use tinyllb.Prelude.Int.{ℤ}
use tinyllb.Prelude.Float.{Float}
use tinyllb.Prelude.Table.{lookup, insert}

-- `serde_json::Value` by its variants. A map is a list with one pair for each key.
pub data Shape (V N : Type 0) : Type 0 where
  null : Shape V N
  boolean : Bool → Shape V N
  number : N → Shape V N
  string : List ℕ → Shape V N
  array : List V → Shape V N
  object : List (List ℕ × V) → Shape V N

pub record Json (F : Float) : Type 1 where
  pub Value : Type 0
  pub Number : Type 0
  pub shape : Value → Shape Value Number
  pub of_shape : Shape Value Number → Value
  pub from_slice : List ℕ → Option Value
  pub to_vec : Value → Option (List ℕ)
  pub as_i64 : Number → Option ℤ
  pub is_f64 : Number → Bool
  pub as_f64 : Number → Option F.Carrier
  -- None on a NaN or an infinity
  pub from_f64 : F.Carrier → Option Number

module _ {F : Float} (J : Json F) where
  -- What the gateway relies on: a value that is built has the shape it is built from.
  pub record IsLawful : Type 0 where
    pub shape-of_shape : (s : Shape J.Value J.Number) → J.shape (J.of_shape s) ≡ s

  -- `Value::get` with a key: None if the value is no object.
  unfoldable pub get : List ℕ → J.Value → Option J.Value
  unfolding lookup
  get k v = elim (J.shape v) [ object m ↦ lookup k m | _ ↦ none ]

  -- The shape of a member.
  unfoldable pub field : List ℕ → J.Value → Option (Shape J.Value J.Number)
  unfolding get
  field k v = elim (get k v) [ none ↦ none | some x ↦ some (J.shape x) ]

  unfoldable pub as_array : J.Value → Option (List J.Value)
  as_array v = elim (J.shape v) [ array a ↦ some a | _ ↦ none ]

  unfoldable pub as_object : J.Value → Option (List (List ℕ × J.Value))
  as_object v = elim (J.shape v) [ object m ↦ some m | _ ↦ none ]

  unfoldable pub int_field : List ℕ → J.Value → Option ℤ
  unfolding field
  int_field k v = elim (field k v) [ some (number n) ↦ J.as_i64 n | _ ↦ none ]

  -- `v[k] = x`: null becomes an object, any other value that is no object is a panic.
  unfoldable pub set_member : List ℕ → J.Value → J.Value → Option J.Value
  unfolding insert
  set_member k x v = elim (J.shape v) [
    | null ↦ some (J.of_shape (object ((k, x) ∷ [])))
    | object m ↦ some (J.of_shape (object (insert k x m)))
    | _ ↦ none
  ]
