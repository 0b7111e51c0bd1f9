-- ===== src/Logview/Widths.antt =====
-- The widths of the lines and texts of internal/logview/table.go.
use Prim.Native.Nat.{◌/◌}
use mathlib.Core.Path.{subst}
use rw_node_go.Common.{
  ◌<◌, ◌||◌, ℤ, length-take, take, nat_eq, ◌∙◌, ℕ, zero, suc, ◌+◌, ◌-◌, ◌≤◌, ◌≡◌, refl, List, [],
  ◌∷◌, ◌++◌, All, length, length-append, is_empty, leb, arith, Bool-cases, inl, inr,
}
use rw_node_go.Logview.{
  heading, title_lines, content_width, table_lines, truncate, border, center, row_lines, Bytes, Row,
  repeat, pad_right, key_width, value_width, row_line, bytes_of, larger,
}

length-repeat : (b n : ℕ) → length (repeat b n) ≡ n
unfolding repeat
length-repeat b zero = refl
length-repeat b (suc n) = ground (arith, length-repeat b n)

length-pad_right :
    (value : Bytes) (width : ℕ) → length value ≤ width → length (pad_right value width) ≡ width
unfolding pad_right
length-pad_right value width h = elim (Bool-cases (leb width (length value))) [
  | inl e ↦ simp e (ground arith)
  | inr e ↦ simp e (
      ground (
        arith,
        length-append value (repeat 32 (width - length value)),
        length-repeat 32 (width - length value),
      ))
]

-- A key is not longer than the width of its column.
key_width_ge : (width : ℕ) (rows : List Row) → width ≤ key_width width rows
unfolding key_width
key_width_ge width [] = omega arith
key_width_ge width (row ∷ rows) = ground (arith, key_width_ge (larger width (length row.key)) rows)

keys_fit : (width : ℕ) (rows : List Row) → All (λ row. length row.key ≤ key_width width rows) rows
unfolding key_width
keys_fit width [] = tt
keys_fit width (row ∷ rows) = (
  ground (arith, key_width_ge (larger width (length row.key)) rows),
  keys_fit (larger width (length row.key)) rows,
)

value_width_ge : (width : ℕ) (rows : List Row) → width ≤ value_width width rows
unfolding value_width
value_width_ge width [] = omega arith
value_width_ge width (row ∷ rows) =
    ground (arith, value_width_ge (larger width (length row.value)) rows)

values_fit :
    (width : ℕ) (rows : List Row) → All (λ row. length row.value ≤ value_width width rows) rows
unfolding value_width
values_fit width [] = tt
values_fit width (row ∷ rows) = (
  ground (arith, value_width_ge (larger width (length row.value)) rows),
  values_fit (larger width (length row.value)) rows,
)

length-cells :
    (key value : Bytes)
    → length (bytes_of "| " ++ key ++ bytes_of " | " ++ value ++ bytes_of " |")
      ≡ length key + length value + 7
length-cells key value = ground (
  arith,
  length-append (bytes_of "| " ++ key ++ bytes_of " | " ++ value) (bytes_of " |"),
  length-append (bytes_of "| " ++ key ++ bytes_of " | ") value,
  length-append (bytes_of "| " ++ key) (bytes_of " | "),
)

length-row_line :
    (keys values : ℕ) (row : Row)
    → length row.key ≤ keys
    → length row.value ≤ values
    → length (row_line keys values row) ≡ keys + values + 7
unfolding row_line
length-row_line keys values row k v = omega (
  arith,
  length-cells (pad_right row.key keys) (pad_right row.value values),
  length-pad_right row.key keys k,
  length-pad_right row.value values v,
)

length-border : (width : ℕ) → length (border width) ≡ width + 2
unfolding border
length-border width =
    ground (arith, length-append (repeat 45 width) (bytes_of "+"), length-repeat 45 width)

length-sides :
    (left right : ℕ) (value : Bytes)
    → length (repeat 32 left ++ value ++ repeat 32 right) ≡ left + length value + right
length-sides left right value = ground (
  arith,
  length-append (repeat 32 left ++ value) (repeat 32 right),
  length-append (repeat 32 left) value,
  length-repeat 32 left,
  length-repeat 32 right,
)

length-center :
    (value : Bytes) (width : ℕ) → length value ≤ width → length (center value width) ≡ width
unfolding center
length-center value width h = elim (Bool-cases (leb width (length value))) [
  | inl e ↦ simp e (ground arith)
  | inr e ↦
      let left = (width - length value) / 2 in
      let right = width - length value - left in
      simp e (length-sides left right value ∙ ground arith)
]

-- A line of the width of the table.
abbrev pub IsWide : ℕ → Bytes → Type 0
IsWide width line = length line ≡ width + 2

row_lines-IsWide :
    (keys values : ℕ) (rows : List Row)
    → All (λ row. length row.key ≤ keys) rows
    → All (λ row. length row.value ≤ values) rows
    → All (IsWide (keys + values + 5)) (row_lines keys values rows)
unfolding row_lines
row_lines-IsWide keys values [] k v = tt
row_lines-IsWide keys values (row ∷ rows) k v = (
  length-row_line keys values row k.0 v.0 ∙ omega arith,
  row_lines-IsWide keys values rows k.1 v.1,
)

title_lines-IsWide :
    (title : Bytes) (width : ℕ)
    → length title + 2 ≤ width
    → All (IsWide width) (title_lines title width)
title_lines-IsWide [] width h = tt
title_lines-IsWide (b ∷ title) width h =
    let centered = center (b ∷ title) width in
    (
      omega (
        arith,
        length-append centered (bytes_of "|"),
        length-center (b ∷ title) width (omega arith),
      ),
      (length-border width, tt),
    )

All-append {ℓ κ} :
    {A : Type ℓ} (P : A → Type κ) (xs ys : List A) → All P xs → All P ys → All P (xs ++ ys)
All-append P [] ys a b = b
All-append P (x ∷ xs) ys a b = (a.0, All-append P xs ys a.1 b)

-- The lines of a table whose border has this width.
abbrev lines_of : ℕ → ℕ → ℕ → Bytes → List Row → List Bytes
lines_of width keys values title rows =
    border width ∷ title_lines title width
    ++ (row_line keys values heading ∷ border width ∷ row_lines keys values rows
        ++ (border width ∷ []))

lines_of-IsWide :
    (keys values : ℕ) (title : Bytes) (rows : List Row)
    → 5 ≤ keys
    → 5 ≤ values
    → length title + 2 ≤ keys + values + 5
    → All (λ row. length row.key ≤ keys) rows
    → All (λ row. length row.value ≤ values) rows
    → All (IsWide (keys + values + 5)) (lines_of (keys + values + 5) keys values title rows)
lines_of-IsWide keys values title rows a b h k v =
    let width = keys + values + 5 in
    let edge = length-border width in
    let below =
      All-append (IsWide width) (row_lines keys values rows) (border width ∷ [])
        (row_lines-IsWide keys values rows k v) (edge, tt) in
    let head : IsWide width (row_line keys values heading) =
      length-row_line keys values heading a b ∙ omega arith in
    (
      edge,
      All-append (IsWide width) (title_lines title width)
          (row_line keys values heading ∷ border width ∷ row_lines keys values rows
            ++ (border width ∷ []))
          (title_lines-IsWide title width h) (head, (edge, below)),
    )

content_width_lem :
    (title : Bytes) (keys values : ℕ)
    → length title + 2 ≤ keys + values + 5
    → keys + values + 5 ≡ content_width title keys values
unfolding content_width
content_width_lem title keys values h = ground arith

-- All lines of a table are as wide as its columns ask for, if the title is not too long for them.
pub table_lines-IsWide :
    (title : Bytes) (rows : List Row)
    → length title + 2 ≤ key_width 5 rows + value_width 5 rows + 5
    → All (IsWide (key_width 5 rows + value_width 5 rows + 5)) (table_lines title rows)
unfolding table_lines
table_lines-IsWide title rows h =
    let keys = key_width 5 rows in
    let values = value_width 5 rows in
    subst (λ w. All (IsWide (keys + values + 5)) (lines_of w keys values title rows))
      (content_width_lem title keys values h)
      (lines_of-IsWide keys values title rows (key_width_ge 5 rows) (value_width_ge 5 rows) h
        (keys_fit 5 rows) (values_fit 5 rows))

-- A truncated text is not longer than the length it is given, if that is positive.
pub length-truncate :
    (trim : Bytes → Bytes) (digits_of : ℤ → Bytes) (value : Bytes) (n : ℕ)
    → 0 < n
    → length (truncate trim digits_of value n) ≤ n
unfolding truncate
length-truncate trim digits_of value n h = elim (Bool-cases (is_empty (trim value))) [
  | inl e ↦ simp e (omega arith)
  | inr e ↦ elim (Bool-cases (nat_eq n 0 || leb (length (trim value)) n)) [
    | inl g ↦ simp (e, g) (ground arith)
    | inr g ↦ elim (Bool-cases (leb n 3)) [
      | inl k ↦ simp (e, g, k) (ground (arith, length-take n (trim value)))
      | inr k ↦
          simp (e, g, k)
            (ground (
              arith,
              length-append (take (n - 3) (trim value)) (bytes_of "..."),
              length-take (n - 3) (trim value),
            ))
    ]
  ]
]
