-- ===== src/Panel/Redacted.antt =====
-- What is left of secrets in a redacted JSON value (internal/testkit/panel_client.go).
use Prim.Native.Char.{Char}
use Prim.Native.String
use rw_node_go.Common.{
  if◌then◌else◌, true, ℕ, zero, suc, ◌+◌, ◌-◌, ◌≤◌, ◌<◌, ◌≡◌, refl, false, String, ◌==◌, leb, arith,
  Bool-cases, inl, inr, ◌⊎◌,
}
use rw_node_go.Golang.Strings.{trim_space, first_characters}
use rw_node_go.Json.{
  null, nil, end, field, Fields, cons, Items, int, float, arr, obj, bool, Value, text,
}
use rw_node_go.Panel.Redact.{
  redact_map, redact_items, is_sensitive_key, redact_text, redact_json, redact_entry, text_length,
  drop_characters, redact_secret,
}

-- Nothing of a secret, or its first and its last four characters, of nine or more.
abbrev pub IsMasked : Value → Type 0
IsMasked v =
    (v ≡ text "")
    ⊎ (v ≡ text "[REDACTED]")
    ⊎ ((first last : String) × (text_length first ≡ 4)
        × (text_length last ≡ 4)
        × (v ≡ text (String.◌++◌ first (String.◌++◌ "..." last))))

first_characters-length :
    (n : ℕ) (s : String) → n ≤ text_length s → text_length (first_characters n s) ≡ n
unfolding first_characters
first_characters-length zero s h = refl
first_characters-length (suc n) String.[] h = ground arith
first_characters-length (suc n) (String.◌∷◌ c s) h = ground (arith, first_characters-length n s)

drop_characters-length :
    (n : ℕ) (s : String) → n ≤ text_length s → text_length (drop_characters n s) + n ≡ text_length s
unfolding drop_characters
drop_characters-length zero s h = omega arith
drop_characters-length (suc n) String.[] h = ground arith
drop_characters-length (suc n) (String.◌∷◌ c s) h = ground (arith, drop_characters-length n s)

long_secret :
    (value : String)
    → leb (text_length value) 8 ≡ false
    → IsMasked (
        text (
          String.◌++◌
            (first_characters 4 value)
            (String.◌++◌ "..." (drop_characters (text_length value - 4) value))))
long_secret value h =
    let long : 8 < text_length value = ground arith in
    let first = first_characters-length 4 value (omega arith) in
    let last = drop_characters-length (text_length value - 4) value (omega arith) in
    inr (
      inr (
        first_characters 4 value,
        drop_characters (text_length value - 4) value,
        first,
        omega arith,
        refl,
      ))

secret-IsMasked : (s : String) → IsMasked (text (redact_secret s))
unfolding redact_secret
secret-IsMasked s =
    let value = trim_space s in
    elim (Bool-cases (value == "")) [
      | inl e ↦ rw e (inl refl)
      | inr e ↦ elim (Bool-cases (leb (text_length value) 8)) [
        | inl k ↦ rw e (rw k (inr (inl refl)))
        | inr k ↦ rw e (rw k (long_secret value k))
      ]
    ]

entry-IsMasked :
    (other : Char → Char) (replace_patterns : String → String) (v : Value)
    → IsMasked (redact_entry other replace_patterns v)
entry-IsMasked other replace_patterns (text s) = secret-IsMasked s
entry-IsMasked other replace_patterns null = inr (inl refl)
entry-IsMasked other replace_patterns (bool b) = inr (inl refl)
entry-IsMasked other replace_patterns (float f) = inr (inl refl)
entry-IsMasked other replace_patterns (int n) = inr (inl refl)
entry-IsMasked other replace_patterns (obj m) = inr (inl refl)
entry-IsMasked other replace_patterns (arr xs) = inr (inl refl)

module _ (other : Char → Char) (replace_patterns : String → String) where
  -- A text that the patterns have gone over.
  abbrev pub IsReplaced : String → Type 0
  IsReplaced s = (t : String) × (s ≡ redact_text other replace_patterns t)

  -- At every depth the value under a sensitive key is masked, and the patterns have gone over every
  -- other text.
  unfoldable mutual
    pub IsRedacted : Value → Type 0
    IsRedacted (obj m) = AreRedacted m
    IsRedacted (arr xs) = AllRedacted xs
    IsRedacted (text s) = IsReplaced s
    IsRedacted null = Unit
    IsRedacted (bool b) = Unit
    IsRedacted (float f) = Unit
    IsRedacted (int n) = Unit

    pub AllRedacted : Items → Type 0
    AllRedacted nil = Unit
    AllRedacted (cons v xs) = IsRedacted v × AllRedacted xs

    pub AreRedacted : Fields → Type 0
    AreRedacted end = Unit
    AreRedacted (field k v m) =
        ((is_sensitive_key other k ≡ true) × IsMasked v
          ⊎ (is_sensitive_key other k ≡ false) × IsRedacted v)
        × AreRedacted m

  entry_or :
      (k : String) (v : Value)
      → IsRedacted (redact_json other replace_patterns v)
      → (is_sensitive_key other k ≡ true)
          × IsMasked (
              if is_sensitive_key other k
              then redact_entry other replace_patterns v
              else redact_json other replace_patterns v)
        ⊎ (is_sensitive_key other k ≡ false)
          × IsRedacted (
              if is_sensitive_key other k
              then redact_entry other replace_patterns v
              else redact_json other replace_patterns v)
  entry_or k v h = elim (Bool-cases (is_sensitive_key other k)) [
    | inl e ↦ rw e (inl (refl, entry-IsMasked other replace_patterns v))
    | inr e ↦ rw e (inr (refl, h))
  ]

  mutual
    unfolding redact_json IsRedacted

    value_hidden : (v : Value) → IsRedacted (redact_json other replace_patterns v)
    value_hidden (obj m) = fields_hidden m
    value_hidden (arr xs) = items_hidden xs
    value_hidden (text s) = (s, refl)
    value_hidden null = tt
    value_hidden (bool b) = tt
    value_hidden (float f) = tt
    value_hidden (int n) = tt

    items_hidden : (xs : Items) → AllRedacted (redact_items other replace_patterns xs)
    items_hidden nil = tt
    items_hidden (cons v xs) = (value_hidden v, items_hidden xs)

    fields_hidden : (m : Fields) → AreRedacted (redact_map other replace_patterns m)
    fields_hidden end = tt
    fields_hidden (field k v m) = (entry_or k v (value_hidden v), fields_hidden m)

  -- Every redacted value is one that the patterns and the masks have gone over.
  pub redact_json-IsRedacted : (v : Value) → IsRedacted (redact_json other replace_patterns v)
  redact_json-IsRedacted v = value_hidden v
