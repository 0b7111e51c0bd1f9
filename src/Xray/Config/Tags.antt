-- ===== src/Xray/Config/Tags.antt =====
-- Which configurations the builder refuses.
use rw_node_go.Common.{
  ◌≡◌, refl, ◌↔◌, ◌⊎◌, inl, inr, Bool, true, false, ◌||◌, Option, none, some, String, eq_iff, arith,
  Bool-cases, IsOk, ok,
}
use rw_node_go.Json.{Value, text, obj, Items, nil, cons, Fields, get, is_text, clone_map_lem}
use rw_node_go.Xray.Config.{
  ConfigBuilder, api_tag, api_inbound_tag, ensure_array, has_tagged_item, has_tag, instrument,
  build,
}

-- A tag is taken by an item that is a map whose "tag" is that text.
abbrev pub Tagged : String → Value → Type 0
Tagged tag (obj item) = get "tag" item ≡ some (text tag)
Tagged tag _ = ⊥

abbrev pub AnyTagged : String → Items → Type 0
AnyTagged tag nil = ⊥
AnyTagged tag (cons v rest) = Tagged tag v ⊎ AnyTagged tag rest

-- The tag is taken by an inbound or an outbound of the configuration.
abbrev pub Takes : Fields → String → Type 0
Takes config tag =
    AnyTagged tag (ensure_array (get "inbounds" config))
    ⊎ AnyTagged tag (ensure_array (get "outbounds" config))

is_text_iff : (o : Option Value) (s : String) → (is_text o s ≡ true) ↔ (o ≡ some (text s))
is_text_iff none s = (λ h. cc, λ h. cc)
is_text_iff (some (text t)) s = (λ h. ground (arith, eq_iff t s), λ h. ground (arith, eq_iff t s))
is_text_iff (some _) s = (λ h. cc, λ h. cc)

-- A test that is a disjunction of two decides the sum of what they decide.
or_iff : {P Q : Type 0} (a b : Bool) → (a ≡ true) ↔ P → (b ≡ true) ↔ Q → ((a || b) ≡ true) ↔ (P ⊎ Q)
or_iff true b p q = (λ h. inl (p.0 refl), λ h. refl)
or_iff false b p q = (λ h. inr (q.0 h), elim [ inl x ↦ cc (p.1 x) | inr y ↦ q.1 y ])

has_tagged_item_iff :
    (tag : String) (xs : Items) → (has_tagged_item tag xs ≡ true) ↔ AnyTagged tag xs
unfolding has_tagged_item
has_tagged_item_iff tag nil = (λ h. cc, λ h. absurd h)
has_tagged_item_iff tag (cons (obj item) rest) =
    or_iff _ _ (is_text_iff (get "tag" item) tag) (has_tagged_item_iff tag rest)
has_tagged_item_iff tag (cons _ rest) = (
  λ h. inr ((has_tagged_item_iff tag rest).0 h),
  elim [ inl x ↦ absurd x | inr y ↦ (has_tagged_item_iff tag rest).1 y ],
)

has_tag_iff : (config : Fields) (tag : String) → (has_tag config tag ≡ true) ↔ Takes config tag
unfolding has_tag
has_tag_iff config tag = or_iff _ _ (has_tagged_item_iff tag _) (has_tagged_item_iff tag _)

taken_iff :
    (config : Fields)
    → ((has_tag config api_tag || has_tag config api_inbound_tag) ≡ true)
      ↔ (Takes config api_tag ⊎ Takes config api_inbound_tag)
taken_iff config = or_iff _ _ (has_tag_iff config api_tag) (has_tag_iff config api_inbound_tag)

IsOk-build :
    (b : ConfigBuilder) (config : Fields)
    → IsOk (build b config) ↔ ((has_tag config api_tag || has_tag config api_inbound_tag) ≡ false)
unfolding build
IsOk-build b config = simp clone_map_lem (ground arith)

-- The builder accepts a configuration exactly when no inbound and no outbound of it takes one of
-- the two tags that are reserved for the API.
pub build_accepts_iff :
    (b : ConfigBuilder) (config : Fields)
    → IsOk (build b config) ↔ (¬ (Takes config api_tag ⊎ Takes config api_inbound_tag))
build_accepts_iff b config =
    let taken = taken_iff config in
    (
      λ h t. cc ((IsOk-build b config).0 h, taken.1 t),
      λ free. elim (Bool-cases (has_tag config api_tag || has_tag config api_inbound_tag)) [
        | inl e ↦ absurd (free (taken.0 e))
        | inr e ↦ (IsOk-build b config).1 e
      ],
    )

-- What an accepted configuration becomes.
pub build-ok :
    (b : ConfigBuilder) (config : Fields) (d : Fields)
    → build b config ≡ ok d
    → instrument b config ≡ d
unfolding build
build-ok b config d h = ground (arith, simp clone_map_lem at h)
