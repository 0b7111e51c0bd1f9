-- ===== src/Panel/Alike.antt =====
-- What a redacted JSON value does not tell apart (internal/testkit/panel_client.go).
use Prim.Native.Char.{Char}
use Prim.Native.String
use rw_node_go.Common.{
  if◌then◌else◌, true, false, ◌-◌, ◌≡◌, refl, sym, ap, ◌∙◌, String, ◌==◌, leb, Bool-cases, inl, inr,
}
use rw_node_go.Golang.Strings.{trim_space, first_characters}
use rw_node_go.Json.{
  null, nil, end, field, Fields, cons, Items, int, float, arr, obj, bool, Value, text,
}
use rw_node_go.Panel.Redact.{
  redact_map, redact_items, is_sensitive_key, redact_json, redact_entry, text_length,
  drop_characters, redact_secret,
}

-- What can be known of a value under a sensitive key: that it is blank, that it is something, or how a
-- text of more than eight characters begins and ends.
pub data Known : Type 0 where
  blank : Known
  something : Known
  ends : String → String → Known

abbrev known_text : String → Known
known_text value =
    if value == ""
    then blank
    else if leb (text_length value) 8
    then something
    else ends (first_characters 4 value) (drop_characters (text_length value - 4) value)

abbrev pub known : Value → Known
known (text s) = known_text (trim_space s)
known _ = something

abbrev mask : Known → String
mask blank = ""
mask something = "[REDACTED]"
mask (ends first last) = String.◌++◌ first (String.◌++◌ "..." last)

secret-mask : (s : String) → redact_secret s ≡ mask (known_text (trim_space s))
unfolding redact_secret
secret-mask s =
    let value = trim_space s in
    elim (Bool-cases (value == "")) [
      | inl e ↦ rw e refl
      | inr e ↦ elim (Bool-cases (leb (text_length value) 8)) [
        | inl k ↦ rw e (rw k refl)
        | inr k ↦ rw e (rw k refl)
      ]
    ]

module _ (other : Char → Char) (replace_patterns : String → String) where
  entry-mask : (v : Value) → redact_entry other replace_patterns v ≡ text (mask (known v))
  entry-mask (text s) = ap text (secret-mask s)
  entry-mask null = refl
  entry-mask (bool b) = refl
  entry-mask (float f) = refl
  entry-mask (int n) = refl
  entry-mask (obj m) = refl
  entry-mask (arr xs) = refl

  -- Values that are the same but under sensitive keys, at any depth, where the same is known of them.
  mutual
    pub data Alike : Value → Value → Type 0 where
      untouched : (v : Value) → Alike v v
      objects : (m n : Fields) → AlikeFields m n → Alike (obj m) (obj n)
      arrays : (xs ys : Items) → AlikeItems xs ys → Alike (arr xs) (arr ys)

    pub data AlikeItems : Items → Items → Type 0 where
      no_items : AlikeItems nil nil
      items :
          (v w : Value) (xs ys : Items)
          → Alike v w
          → AlikeItems xs ys
          → AlikeItems (cons v xs) (cons w ys)

    pub data AlikeFields : Fields → Fields → Type 0 where
      no_fields : AlikeFields end end
      secret :
          (k : String) (v w : Value) (m n : Fields)
          → is_sensitive_key other k ≡ true
          → known v ≡ known w
          → AlikeFields m n
          → AlikeFields (field k v m) (field k w n)
      plain :
          (k : String) (v w : Value) (m n : Fields)
          → is_sensitive_key other k ≡ false
          → Alike v w
          → AlikeFields m n
          → AlikeFields (field k v m) (field k w n)

  secret_same :
      (k : String) (v w : Value)
      → is_sensitive_key other k ≡ true
      → known v ≡ known w
      → (if is_sensitive_key other k
          then redact_entry other replace_patterns v
          else redact_json other replace_patterns v)
        ≡ (if is_sensitive_key other k
            then redact_entry other replace_patterns w
            else redact_json other replace_patterns w)
  secret_same k v w e h = rw e (entry-mask v ∙ ap (λ n. text (mask n)) h ∙ sym (entry-mask w))

  plain_same :
      (k : String) (v w : Value)
      → is_sensitive_key other k ≡ false
      → redact_json other replace_patterns v ≡ redact_json other replace_patterns w
      → (if is_sensitive_key other k
          then redact_entry other replace_patterns v
          else redact_json other replace_patterns v)
        ≡ (if is_sensitive_key other k
            then redact_entry other replace_patterns w
            else redact_json other replace_patterns w)
  plain_same k v w e h = rw e h

  mutual
    unfolding redact_json

    values_same :
        (v w : Value)
        → Alike v w
        → redact_json other replace_patterns v ≡ redact_json other replace_patterns w
    values_same v _ (untouched _) = refl
    values_same _ _ (objects m n h) = ap obj (fields_same m n h)
    values_same _ _ (arrays xs ys h) = ap arr (items_same xs ys h)

    items_same :
        (xs ys : Items)
        → AlikeItems xs ys
        → redact_items other replace_patterns xs ≡ redact_items other replace_patterns ys
    items_same _ _ no_items = refl
    items_same _ _ (items v w xs ys h hs) = λ i. cons (values_same v w h i) (items_same xs ys hs i)

    fields_same :
        (m n : Fields)
        → AlikeFields m n
        → redact_map other replace_patterns m ≡ redact_map other replace_patterns n
    fields_same _ _ no_fields = refl
    fields_same _ _ (secret k v w m n e h hs) =
        λ i. field k (secret_same k v w e h i) (fields_same m n hs i)
    fields_same _ _ (plain k v w m n e h hs) =
        λ i. field k (plain_same k v w e (values_same v w h) i) (fields_same m n hs i)
