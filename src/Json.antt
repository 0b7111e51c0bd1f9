-- ===== src/Json.antt =====
-- Go's `any` as the JSON decoder fills it, and the deep copies of it that internal/state/runtime.go
-- and internal/xray/config.go make. A float64 keeps its literal text, since the code only copies
-- it; `int` is the Go int that the config builder writes. A map is a list of entries.
use rw_node_go.Common.{
  ℕ, ◌≡◌, refl, ap, Bool, false, Option, none, some, String, ◌==◌, eq_iff, if◌then◌else◌, arith,
}

mutual
  pub data Value : Type 0 where
    null : Value
    bool : Bool → Value
    float : String → Value
    int : ℕ → Value
    text : String → Value
    obj : Fields → Value
    arr : Items → Value

  pub data Items : Type 0 where
    nil : Items
    cons : Value → Items → Items

  pub data Fields : Type 0 where
    end : Fields
    field : String → Value → Fields → Fields

-- m[k]
unfoldable pub get : String → Fields → Option Value
get k end = none
get k (field j v m) = if j == k then some v else get k m

-- m[k] = v
unfoldable pub put : String → Value → Fields → Fields
put k v end = field k v end
put k v (field j w m) = if j == k then field k v m else field j w (put k v m)

pub get-put :
    (k j : String) (v : Value) (m : Fields)
    → get j (put k v m) ≡ (if k == j then some v else get j m)
unfolding get put
get-put k j v end = refl
get-put k j v (field i w m) = ground (arith, eq_iff k j, eq_iff i k, eq_iff i j, get-put k j v m)

-- Writing back what is read changes nothing.
pub put-get : (k : String) (v : Value) (m : Fields) → get k m ≡ some v → put k v m ≡ m
unfolding get put
put-get k v end h = ground arith
put-get k v (field i w m) h = ground (arith, eq_iff i k, put-get k v m)

-- v.(map[string]any), v.([]any), v.(string), v.(bool): `none` where the assertion fails.
abbrev pub as_map : Option Value → Option Fields
as_map (some (obj m)) = some m
as_map _ = none

abbrev pub as_array : Option Value → Option Items
as_array (some (arr xs)) = some xs
as_array _ = none

abbrev pub as_text : Option Value → Option String
as_text (some (text s)) = some s
as_text _ = none

-- `s, _ := v.(string)`: the zero value where the assertion fails.
abbrev pub text_or_empty : Option Value → String
text_or_empty (some (text s)) = s
text_or_empty _ = ""

-- v == s, a comparison of an interface value with a string
abbrev pub is_text : Option Value → String → Bool
is_text (some (text t)) s = t == s
is_text _ s = false

-- cloneMap and cloneValue
unfoldable mutual
  pub clone_value : Value → Value
  clone_value (obj m) = obj (clone_map m)
  clone_value (arr xs) = arr (clone_items xs)
  clone_value null = null
  clone_value (bool b) = bool b
  clone_value (float f) = float f
  clone_value (int n) = int n
  clone_value (text s) = text s

  pub clone_items : Items → Items
  clone_items nil = nil
  clone_items (cons v xs) = cons (clone_value v) (clone_items xs)

  pub clone_map : Fields → Fields
  clone_map end = end
  clone_map (field k v m) = field k (clone_value v) (clone_map m)

mutual
  unfolding clone_value

  clone_value-eq : (v : Value) → clone_value v ≡ v
  clone_value-eq (obj m) = ap obj (clone_map-eq m)
  clone_value-eq (arr xs) = ap arr (clone_items-eq xs)
  clone_value-eq null = refl
  clone_value-eq (bool b) = refl
  clone_value-eq (float f) = refl
  clone_value-eq (int n) = refl
  clone_value-eq (text s) = refl

  clone_items-eq : (xs : Items) → clone_items xs ≡ xs
  clone_items-eq nil = refl
  clone_items-eq (cons v xs) = λ i. cons (clone_value-eq v i) (clone_items-eq xs i)

  clone_map-eq : (m : Fields) → clone_map m ≡ m
  clone_map-eq end = refl
  clone_map-eq (field k v m) = λ i. field k (clone_value-eq v i) (clone_map-eq m i)

-- A deep copy equals what is copied.
pub clone_map_lem : (m : Fields) → clone_map m ≡ m
clone_map_lem m = clone_map-eq m
