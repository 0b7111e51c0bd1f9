-- ===== src/Xray/StatNames/RoundTrip.antt =====
-- Names that are built by a format are parsed back.
use Prim.Native.Char.{Char}
use Prim.Native.String.append
use Prim.Native.String.{[], ◌∷◌, ◌++◌}
use rw_node_go.Common.{
  ◌≡◌, refl, ap, ◌∙◌, ◌≢◌, Bool, true, false, ◌&&◌, not, Bool-cases, inl, inr, some, none, String,
  List, eq_iff, arith, ◌==◌, if◌then◌else◌,
}
use rw_node_go.Xray.StatNames.Split.{is_gt, at_separator, cons_first, split}
use rw_node_go.Xray.StatNames.{
  traffic_name, parse_traffic_stat_name, Direction, uplink, downlink, stats_user_online,
  parse_online_stat_name,
}

-- No character of the text is '>'.
unfoldable pub is_plain : String → Bool
is_plain [] = true
is_plain (c ∷ s) = not (is_gt c) && is_plain s

at_separator-gt : (c : Char) (s : String) → at_separator (c ∷ s) ≡ true → is_gt c ≡ true
unfolding at_separator
at_separator-gt c [] h = cc
at_separator-gt c (a ∷ []) h = cc
at_separator-gt c (a ∷ b ∷ s) h = ground arith

abbrev gt : Char
gt = ">"

separator-append : (s : String) → ">>>" ++ s ≡ gt ∷ (gt ∷ (gt ∷ s))
separator-append s =
    append.cons gt ">>" s
    ∙ ap (λ t. gt ∷ t)
        (append.cons gt ">" s
          ∙ ap (λ t. gt ∷ t) (append.cons gt "" s ∙ ap (λ t. gt ∷ t) (append.nil s)))

split-separator : (rest : String) → split (gt ∷ (gt ∷ (gt ∷ rest))) ≡ List.◌∷◌ [] (split rest)
unfolding split
split-separator rest = refl

-- Before a character that is not '>' the text is not cut.
split-cons : (c : Char) (s : String) → is_gt c ≡ false → split (c ∷ s) ≡ cons_first c (split s)
unfolding split
split-cons c s h = elim (Bool-cases (at_separator (c ∷ s))) [
  | inl e ↦ cc (h, at_separator-gt c s e)
  | inr e ↦ rw e refl
]

split-append :
    (p rest : String) → is_plain p ≡ true → split (p ++ (">>>" ++ rest)) ≡ List.◌∷◌ p (split rest)
unfolding is_plain
split-append [] rest h =
    ap split (append.nil (">>>" ++ rest) ∙ separator-append rest) ∙ split-separator rest
split-append (c ∷ p) rest h =
    ap split (append.cons c p (">>>" ++ rest))
    ∙ split-cons c (p ++ (">>>" ++ rest)) (ground arith)
    ∙ ap (cons_first c) (split-append p rest (ground arith))

split-plain : (p : String) → is_plain p ≡ true → split p ≡ List.◌∷◌ p List.[]
unfolding is_plain
split-plain [] h = unfold split in refl
split-plain (c ∷ p) h =
    split-cons c p (ground arith) ∙ ap (cons_first c) (split-plain p (ground arith))

unfoldable pub direction_text : Direction → String
direction_text uplink = "uplink"
direction_text downlink = "downlink"

split-traffic_name :
    (kind name : String) (d : Direction)
    → is_plain kind ≡ true
    → is_plain name ≡ true
    → split (traffic_name kind name (direction_text d))
      ≡ List.◌∷◌ kind (List.◌∷◌ name (List.◌∷◌ "traffic" (List.◌∷◌ (direction_text d) List.[])))
unfolding is_plain direction_text
split-traffic_name kind name uplink k n =
    split-append kind _ k
    ∙ ap (List.◌∷◌ kind) (
        split-append name _ n
        ∙ ap (List.◌∷◌ name)
            (split-append "traffic" _ refl ∙ ap (List.◌∷◌ "traffic") (split-plain "uplink" refl)))
split-traffic_name kind name downlink k n =
    split-append kind _ k
    ∙ ap (List.◌∷◌ kind) (
        split-append name _ n
        ∙ ap (List.◌∷◌ name)
            (split-append "traffic" _ refl ∙ ap (List.◌∷◌ "traffic") (split-plain "downlink" refl)))

-- A counter's name is parsed back to the name and the direction that it was formatted with, if
-- neither the kind nor the name holds a '>' and the name is not empty; and it is passed over when
-- it is looked at as a counter of another kind.
pub parse-traffic_name :
    (kind prefix name : String) (d : Direction)
    → is_plain kind ≡ true
    → is_plain name ≡ true
    → name ≢ ""
    → parse_traffic_stat_name (traffic_name kind name (direction_text d)) prefix
      ≡ (if kind == prefix then some (name, d) else none)
unfolding parse_traffic_stat_name direction_text
parse-traffic_name kind prefix name uplink k n e =
    rw (split-traffic_name kind name uplink k n) (ground (arith, eq_iff name ""))
parse-traffic_name kind prefix name downlink k n e =
    rw (split-traffic_name kind name downlink k n) (ground (arith, eq_iff name ""))

-- The name of an online map is parsed back to the user name, if that is not empty and holds no '>'.
pub parse-online_name :
    (name : String)
    → is_plain name ≡ true
    → name ≢ ""
    → parse_online_stat_name (stats_user_online name) ≡ some name
unfolding parse_online_stat_name
parse-online_name name n e =
    rw (split-append "user" (name ++ (">>>" ++ "online")) (unfold is_plain in refl))
      (rw (split-append name "online" n) (ground (arith, eq_iff name "")))
