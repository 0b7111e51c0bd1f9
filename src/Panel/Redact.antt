-- ===== src/Panel/Redact.antt =====
-- internal/testkit/panel_client.go: what is hidden of secrets in JSON values and texts. The
-- replacements by the four patterns of RedactText are the parameter `replace_patterns`, and `other` is
-- unicode.ToLower past ASCII. Secrets are ASCII, so that a byte is a character.
use Prim.Native.Char.{Char, code}
use Prim.Native.String.{[], ◌∷◌, ◌++◌}
use rw_node_go.Common.{ℕ, zero, suc, ◌-◌, Bool, ◌||◌, String, ◌==◌, nat_eq, leb, if◌then◌else◌}
use rw_node_go.Golang.Strings.{trim_space, to_lower, contains, first_characters}
use rw_node_go.Json.{
  Value, null, bool, float, int, text, obj, arr, Items, nil, cons, Fields, end, field,
}

abbrev pub text_length : String → ℕ
text_length [] = 0
text_length (c ∷ s) = suc (text_length s)

-- s[n:]
unfoldable pub drop_characters : ℕ → String → String
drop_characters zero s = s
drop_characters (suc n) [] = []
drop_characters (suc n) (c ∷ s) = drop_characters n s

unfoldable pub redact_secret : String → String
unfolding drop_characters first_characters trim_space
redact_secret secret =
    let value = trim_space secret in
    if value == ""
    then ""
    else if leb (text_length value) 8
    then "[REDACTED]"
    else first_characters 4 value ++ "..." ++ drop_characters (text_length value - 4) value

-- The two ReplaceAll calls: a dash or a dot becomes an underscore.
unfoldable pub underscores : String → String
underscores [] = []
underscores (c ∷ s) = (if nat_eq (code c) 45 || nat_eq (code c) 46 then "_" else c) ∷ underscores s

module _ (other : Char → Char) where
  unfoldable pub is_sensitive_key : String → Bool
  unfolding underscores to_lower contains
  is_sensitive_key key =
      let normalized = to_lower other (underscores key) in
      contains normalized "secret"
      || contains normalized "token"
      || contains normalized "api_key"
      || contains normalized "apikey"
      || contains normalized "password"
      || contains normalized "private_key"
      || contains normalized "node_key"
      || contains normalized "cert_pem"

module _ (other : Char → Char) (replace_patterns : String → String) where
  unfoldable pub redact_text : String → String
  redact_text s = let value = trim_space s in if value == "" then "" else replace_patterns value

  -- The value under a sensitive key.
  abbrev pub redact_entry : Value → Value
  redact_entry (text s) = text (redact_secret s)
  redact_entry _ = text "[REDACTED]"

  unfoldable mutual
    unfolding is_sensitive_key redact_text redact_secret

    pub redact_json : Value → Value
    redact_json (obj m) = obj (redact_map m)
    redact_json (arr xs) = arr (redact_items xs)
    redact_json (text s) = text (redact_text s)
    redact_json null = null
    redact_json (bool b) = bool b
    redact_json (float f) = float f
    redact_json (int n) = int n

    pub redact_items : Items → Items
    redact_items nil = nil
    redact_items (cons v xs) = cons (redact_json v) (redact_items xs)

    pub redact_map : Fields → Fields
    redact_map end = end
    redact_map (field k v m) =
        field k (if is_sensitive_key other k then redact_entry v else redact_json v) (redact_map m)
