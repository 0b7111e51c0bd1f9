-- ===== src/Logview.antt =====
-- internal/logview/table.go: the tables of the log, on bytes, since the code counts and cuts bytes.
-- strings.TrimSpace on bytes is the parameter `trim`, and `digits_of` is the verb %d.
pub mod Widths
pub mod Handler
pub mod Colors
use Prim.Native.Nat.{◌/◌}
use Prim.Native.Char.{code}
use Prim.Native.String
use rw_node_go.Common.{
  take, ℕ, zero, suc, ◌+◌, ◌-◌, ℤ, Bool, true, false, not, ◌&&◌, ◌||◌, String, List, [], ◌∷◌, ◌++◌,
  length, is_empty, ltb, leb, nat_eq, if◌then◌else◌,
}

abbrev pub Bytes : Type 0
Bytes = List ℕ

-- The bytes of an ASCII text.
abbrev pub bytes_of : String → Bytes
bytes_of String.[] = []
bytes_of (String.◌∷◌ c s) = code c ∷ bytes_of s

abbrev pub default_max_value_length : ℕ
default_max_value_length = 96

abbrev pub empty_value : Bytes
empty_value = bytes_of "-"

pub record Row : Type 0 where
  pub key : Bytes
  pub value : Bytes

pub record InboundRow : Type 0 where
  pub tag : Bytes
  pub users_count : ℤ
  pub hash : Bytes

-- strings.Repeat of one byte.
unfoldable pub repeat : ℕ → ℕ → Bytes
repeat b zero = []
repeat b (suc n) = b ∷ repeat b n

abbrev pub larger : ℕ → ℕ → ℕ
larger a b = if ltb a b then b else a

unfoldable pub pad_right : Bytes → ℕ → Bytes
unfolding repeat
pad_right value width =
    if leb width (length value) then value else value ++ repeat 32 (width - length value)

unfoldable pub center : Bytes → ℕ → Bytes
unfolding repeat
center value width =
    let left = (width - length value) / 2 in
    let right = width - length value - left in
    if leb width (length value) then value else repeat 32 left ++ value ++ repeat 32 right

unfoldable pub ensure_leading_newline : Bytes → Bytes
ensure_leading_newline [] = 10 ∷ []
ensure_leading_newline (b ∷ value) = if nat_eq b 10 then b ∷ value else 10 ∷ b ∷ value

unfoldable pub key_width : ℕ → List Row → ℕ
key_width width [] = width
key_width width (row ∷ rows) = key_width (larger width (length row.key)) rows

unfoldable pub value_width : ℕ → List Row → ℕ
value_width width [] = width
value_width width (row ∷ rows) = value_width (larger width (length row.value)) rows

unfoldable pub row_line : ℕ → ℕ → Row → Bytes
unfolding pad_right
row_line keys values row =
    bytes_of "| "
    ++ pad_right row.key keys
    ++ bytes_of " | "
    ++ pad_right row.value values
    ++ bytes_of " |"

unfoldable pub row_lines : ℕ → ℕ → List Row → List Bytes
unfolding row_line
row_lines keys values [] = []
row_lines keys values (row ∷ rows) = row_line keys values row ∷ row_lines keys values rows

unfoldable pub border : ℕ → Bytes
unfolding repeat
border width = bytes_of "+" ++ repeat 45 width ++ bytes_of "+"

unfoldable pub content_width : Bytes → ℕ → ℕ → ℕ
content_width title keys values =
    let columns = keys + values + 5 in
    if not (is_empty title) then larger columns (length title + 2) else columns

abbrev pub title_lines : Bytes → ℕ → List Bytes
title_lines [] width = []
title_lines (b ∷ title) width =
    (bytes_of "|" ++ center (b ∷ title) width ++ bytes_of "|") ∷ border width ∷ []

abbrev pub heading : Row
heading = record { key = bytes_of "Field"; value = bytes_of "Value" }

-- The lines of a table with trimmed texts, from the first border to the last.
unfoldable pub table_lines : Bytes → List Row → List Bytes
unfolding border row_line row_lines content_width
table_lines title rows =
    let keys = key_width 5 rows in
    let values = value_width 5 rows in
    let width = content_width title keys values in
    border width ∷ title_lines title width
    ++ (row_line keys values heading ∷ border width ∷ row_lines keys values rows
        ++ (border width ∷ []))

-- Every line after a line feed.
unfoldable pub written : List Bytes → Bytes
written [] = []
written (line ∷ lines) = 10 ∷ line ++ written lines

module _ (trim : Bytes → Bytes) (digits_of : ℤ → Bytes) where
  abbrev pub filled : Bytes → Bytes
  filled value = if is_empty value then empty_value else value

  unfoldable pub normalized : List Row → List Row
  normalized [] = []
  normalized (row ∷ rows) =
      let rest = normalized rows in
      if is_empty (trim row.key)
      then rest
      else record { key = trim row.key; value = filled (trim row.value) } ∷ rest

  unfoldable pub table : Bytes → List Row → Bytes
  unfolding normalized table_lines written
  table title rows = written (table_lines (trim title) (normalized rows))

  unfoldable pub short_hash : Bytes → Bytes
  unfolding take
  short_hash value =
      let trimmed = trim value in
      if is_empty trimmed
      then empty_value
      else if leb (length trimmed) 12
      then trimmed
      else take 12 trimmed

  -- A length that is not positive is 0 here; the two branches for short lengths are one.
  unfoldable pub truncate : Bytes → ℕ → Bytes
  unfolding take
  truncate value max_length =
      let trimmed = trim value in
      if is_empty trimmed
      then empty_value
      else if nat_eq max_length 0 || leb (length trimmed) max_length
      then trimmed
      else if leb max_length 3
      then take max_length trimmed
      else take (max_length - 3) trimmed ++ bytes_of "..."

  unfoldable pub inbound_rows : List InboundRow → List Row
  unfolding short_hash
  inbound_rows [] = []
  inbound_rows (inbound ∷ inbounds) =
      record {
        key = if is_empty (trim inbound.tag) then bytes_of "untagged" else inbound.tag;
        value =
            bytes_of "users="
            ++ digits_of inbound.users_count
            ++ bytes_of " hash="
            ++ short_hash inbound.hash;
      }
      ∷ inbound_rows inbounds

  unfoldable pub inbound_table : Bytes → List InboundRow → Bytes
  unfolding inbound_rows table truncate
  inbound_table title inbounds =
      let rows = inbound_rows inbounds in
      let no_rows =
        record {
          key = bytes_of "Inbounds";
          value = truncate (bytes_of "none") default_max_value_length;
        }
        ∷ [] in
      table title (if is_empty rows then no_rows else rows)
