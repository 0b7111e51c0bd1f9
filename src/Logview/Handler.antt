-- ===== src/Logview/Handler.antt =====
-- internal/logview/handler.go: the log handler with its tables and colours. slog's text handler is a
-- parameter: the text of a record behind the WithAttrs and WithGroup calls that made the handler. It
-- fails only where its writer does. The writer is the list of texts that it is given, and its error
-- for each.
use Prim.Native.Char.{Char, code}
use Prim.Native.String.{◌++◌}
use rw_node_go.Common.{
  ℤ, pos, negsuc, int_lt, Bool, true, false, not, ◌&&◌, Option, none, some, String, ◌==◌, List,
  nat_eq, if◌then◌else◌,
}

abbrev pub table_record_attr : String
table_record_attr = "__logview_table"

abbrev pub ansi_reset : String
ansi_reset = "\u{1b}[0m"

abbrev pub ansi_gray : String
ansi_gray = "\u{1b}[90m"

abbrev pub ansi_green : String
ansi_green = "\u{1b}[32m"

abbrev pub ansi_yellow : String
ansi_yellow = "\u{1b}[33m"

abbrev pub ansi_red : String
ansi_red = "\u{1b}[31m"

-- An attribute of slog: a Bool, or a value of another kind as its text.
pub data AttrValue : Type 0 where
  flag : Bool → AttrValue
  other : String → AttrValue

pub record Attr : Type 0 where
  pub key : String
  pub value : AttrValue

-- A record of slog; the levels are -4, 0, 4 and 8.
pub record LogRecord : Type 0 where
  pub level : ℤ
  pub message : String
  pub attrs : List Attr

-- A call that derives a handler.
pub data Derive : Type 0 where
  with_attrs : List Attr → Derive
  with_group : String → Derive

-- `inner` is the text handler that these calls made.
pub record TextHandler : Type 0 where
  pub inner : List Derive
  pub attrs : List Attr
  pub groups : List String
  pub color : Bool

unfoldable pub new_text_handler : Bool → TextHandler
new_text_handler color = record {
  inner = List.[];
  attrs = List.[];
  groups = List.[];
  color = color;
}

abbrev pub snoc : {A : Type 0} → List A → A → List A
snoc List.[] x = List.◌∷◌ x List.[]
snoc (List.◌∷◌ y ys) x = List.◌∷◌ y (snoc ys x)

abbrev pub append_attrs : {A : Type 0} → List A → List A → List A
append_attrs List.[] attrs = attrs
append_attrs (List.◌∷◌ a existing) attrs = List.◌∷◌ a (append_attrs existing attrs)

unfoldable pub derive : TextHandler → Derive → TextHandler
derive h (with_attrs attrs) = record h {
  inner = snoc h.inner (with_attrs attrs);
  attrs = append_attrs h.attrs attrs;
}
derive h (with_group name) = record h {
  inner = snoc h.inner (with_group name);
  groups = snoc h.groups name;
}

abbrev pub is_true : AttrValue → Bool
is_true (flag b) = b
is_true (other s) = false

unfoldable pub has_table_attr : List Attr → Bool
has_table_attr List.[] = false
has_table_attr (List.◌∷◌ attr attrs) =
    let rest = has_table_attr attrs in
    if attr.key == table_record_attr && is_true attr.value then true else rest

unfoldable pub is_table_record : LogRecord → Bool
unfolding has_table_attr
is_table_record r = has_table_attr r.attrs

unfoldable pub level_color : ℤ → String
level_color level =
    if not (int_lt level (pos 8))
    then ansi_red
    else if not (int_lt level (pos 4))
    then ansi_yellow
    else if not (int_lt (negsuc 3) level)
    then ansi_gray
    else ansi_green

abbrev pub prepend : Char → Option String → Option String
prepend c none = none
prepend c (some s) = some (String.◌∷◌ c s)

-- The text before a line feed at the end, if there is one.
unfoldable pub before_newline : String → Option String
before_newline String.[] = none
before_newline (String.◌∷◌ c String.[]) = if nat_eq (code c) 10 then some "" else none
before_newline (String.◌∷◌ c (String.◌∷◌ d s)) = prepend c (before_newline (String.◌∷◌ d s))

abbrev pub colored : String → String → Option String → String
colored color value (some body) = color ++ body ++ ansi_reset ++ "\n"
colored color value none = color ++ value ++ ansi_reset

unfoldable pub colorize : ℤ → String → String
unfolding level_color before_newline
colorize level value =
    let color = level_color level in
    if color == ""
    then value
    else if value == ""
    then value
    else colored color value (before_newline value)

abbrev pub replay_groups : List String → List Derive
replay_groups List.[] = List.[]
replay_groups (List.◌∷◌ g gs) = List.◌∷◌ (with_group g) (replay_groups gs)

-- The calls that the coloured branch makes on a new text handler.
unfoldable pub replay : List Attr → List String → List Derive
replay List.[] groups = replay_groups groups
replay (List.◌∷◌ a attrs) groups = List.◌∷◌ (with_attrs (List.◌∷◌ a attrs)) (replay_groups groups)

module _ (text : List Derive → LogRecord → String) (write_error : String → Option String) where
  abbrev pub written : String → List String × Option String
  written s = (List.◌∷◌ s List.[], write_error s)

  abbrev pub newline_after : String → Option String → Option String → List String × Option String
  newline_after message (some e) body = (List.◌∷◌ message List.[], some e)
  newline_after message none (some body) = (List.◌∷◌ message List.[], none)
  newline_after message none none = (List.◌∷◌ message (List.◌∷◌ "\n" List.[]), write_error "\n")

  abbrev pub write_table : String → List String × Option String
  write_table message = newline_after message (write_error message) (before_newline message)

  -- What is written for a record, and the error.
  unfoldable pub handle : TextHandler → LogRecord → List String × Option String
  unfolding is_table_record colorize replay before_newline
  handle h r =
      let line = text h.inner r in
      let replayed = text (replay h.attrs h.groups) r in
      if is_table_record r
      then write_table (if h.color then colorize r.level r.message else r.message)
      else if not h.color
      then written line
      else written (colorize r.level replayed)
