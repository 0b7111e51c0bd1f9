-- ===== src/Logview/Colors.antt =====
-- The coloured log beside the plain one (internal/logview/handler.go).
use rw_node_go.Common.{
  true, false, ◌∙◌, sym, Option, ap, ◌≡◌, refl, sym, ap, ◌∙◌, ◌≡◌, true, false, Option, String,
  List, [], ◌∷◌, map,
}
use rw_node_go.Logview.Handler.{
  colorize, new_text_handler, handle, replay, is_table_record, replay_groups, snoc, LogRecord, Attr,
  Derive, with_attrs, with_group, TextHandler, derive, append_attrs,
}

-- The handler after the calls.
abbrev pub derived : TextHandler → List Derive → TextHandler
derived h [] = h
derived h (d ∷ ds) = derived (derive h d) ds

abbrev pub attrs_of : List Derive → List Attr
attrs_of [] = []
attrs_of (with_attrs a ∷ ds) = append_attrs a (attrs_of ds)
attrs_of (with_group g ∷ ds) = attrs_of ds

abbrev pub groups_of : List Derive → List String
groups_of [] = []
groups_of (with_attrs a ∷ ds) = groups_of ds
groups_of (with_group g ∷ ds) = g ∷ groups_of ds

pub append_assoc :
    {A : Type 0} (xs ys zs : List A)
    → append_attrs (append_attrs xs ys) zs ≡ append_attrs xs (append_attrs ys zs)
append_assoc [] ys zs = refl
append_assoc (x ∷ xs) ys zs = ap (λ l. x ∷ l) (append_assoc xs ys zs)

snoc-append :
    {A : Type 0} (xs : List A) (x : A) (ys : List A)
    → append_attrs (snoc xs x) ys ≡ append_attrs xs (x ∷ ys)
snoc-append [] x ys = refl
snoc-append (y ∷ xs) x ys = ap (λ l. y ∷ l) (snoc-append xs x ys)

append-nil : {A : Type 0} (xs : List A) → append_attrs xs [] ≡ xs
append-nil [] = refl
append-nil (x ∷ xs) = ap (λ l. x ∷ l) (append-nil xs)

-- The handler that the calls make.
derived-fields :
    (ds : List Derive) (h : TextHandler)
    → derived h ds ≡ record {
      inner = append_attrs h.inner ds;
      attrs = append_attrs h.attrs (attrs_of ds);
      groups = append_attrs h.groups (groups_of ds);
      color = h.color;
    }
unfolding derive
derived-fields [] h = λ i. record {
  inner = sym (append-nil h.inner) i;
  attrs = sym (append-nil h.attrs) i;
  groups = sym (append-nil h.groups) i;
  color = h.color;
}
derived-fields (with_attrs a ∷ ds) h = derived-fields ds (derive h (with_attrs a)) ∙ λ i. record {
  inner = snoc-append h.inner (with_attrs a) ds i;
  attrs = append_assoc h.attrs a (attrs_of ds) i;
  groups = append_attrs h.groups (groups_of ds);
  color = h.color;
}
derived-fields (with_group g ∷ ds) h = derived-fields ds (derive h (with_group g)) ∙ λ i. record {
  inner = snoc-append h.inner (with_group g) ds i;
  attrs = append_attrs h.attrs (attrs_of ds);
  groups = snoc-append h.groups g (groups_of ds) i;
  color = h.color;
}

-- The calls that add attributes, and then those that open groups.
abbrev pub attrs_first : List (List Attr) → List String → List Derive
attrs_first [] groups = replay_groups groups
attrs_first (a ∷ lists) groups = with_attrs a ∷ attrs_first lists groups

groups_of-replay : (groups : List String) → groups_of (replay_groups groups) ≡ groups
groups_of-replay [] = refl
groups_of-replay (g ∷ gs) = ap (λ l. g ∷ l) (groups_of-replay gs)

attrs_of-replay : (groups : List String) → attrs_of (replay_groups groups) ≡ []
attrs_of-replay [] = refl
attrs_of-replay (g ∷ gs) = attrs_of-replay gs

groups_of-attrs_first :
    (lists : List (List Attr)) (groups : List String)
    → groups_of (attrs_first lists groups) ≡ groups
groups_of-attrs_first [] groups = groups_of-replay groups
groups_of-attrs_first (a ∷ lists) groups = groups_of-attrs_first lists groups

module _ (text : List Derive → LogRecord → String) (write_error : String → Option String) where
  -- What a plain handler writes, and what a coloured one does, for a record that is no table.
  plain_line :
      (ds : List Derive) (r : LogRecord)
      → is_table_record r ≡ false
      → (handle text write_error (derived (new_text_handler false) ds) r).0 ≡ text ds r ∷ []
  unfolding handle new_text_handler
  plain_line ds r plain = rw (derived-fields ds (new_text_handler false)) (rw plain refl)

  colored_line :
      (ds : List Derive) (r : LogRecord)
      → is_table_record r ≡ false
      → (handle text write_error (derived (new_text_handler true) ds) r).0
        ≡ colorize r.level (text (replay (attrs_of ds) (groups_of ds)) r) ∷ []
  unfolding handle new_text_handler
  colored_line ds r plain = rw (derived-fields ds (new_text_handler true)) (rw plain refl)

  -- What slog says of WithAttrs: no attributes change nothing, and two calls add the attributes of both.
  abbrev pub AddsAttrs : Type 0
  AddsAttrs =
      ((ds : List Derive) (r : LogRecord) → text (with_attrs [] ∷ ds) r ≡ text ds r)
      × ((a b : List Attr) (ds : List Derive) (r : LogRecord)
          → text (with_attrs a ∷ with_attrs b ∷ ds) r ≡ text (with_attrs (append_attrs a b) ∷ ds) r)

  module _ (adds : AddsAttrs) where
    together :
        (a : List Attr) (lists : List (List Attr)) (groups : List String) (r : LogRecord)
        → text (with_attrs a ∷ attrs_first lists groups) r
          ≡ text
              (with_attrs (append_attrs a (attrs_of (attrs_first lists groups)))
                ∷ replay_groups groups)
              r
    together a [] groups r =
        ap (λ c. text (with_attrs c ∷ replay_groups groups) r)
          (sym (append-nil a) ∙ ap (append_attrs a) (sym (attrs_of-replay groups)))
    together a (b ∷ lists) groups r =
        adds.1 a b (attrs_first lists groups) r
        ∙ together (append_attrs a b) lists groups r
        ∙ ap (λ c. text (with_attrs c ∷ replay_groups groups) r)
            (append_assoc a b (attrs_of (attrs_first lists groups)))

    replayed :
        (a : List Attr) (groups : List String) (r : LogRecord)
        → text (replay a groups) r ≡ text (with_attrs a ∷ replay_groups groups) r
    unfolding replay
    replayed [] groups r = sym (adds.0 (replay_groups groups) r)
    replayed (a ∷ more) groups r = refl

    shape :
        (lists : List (List Attr)) (groups : List String) (r : LogRecord)
        → text
            (replay (attrs_of (attrs_first lists groups)) (groups_of (attrs_first lists groups)))
            r
          ≡ text (attrs_first lists groups) r
    shape lists groups r =
        ap (λ gs. text (replay (attrs_of (attrs_first lists groups)) gs) r)
          (groups_of-attrs_first lists groups)
        ∙ replayed (attrs_of (attrs_first lists groups)) groups r
        ∙ sym (together [] lists groups r)
        ∙ adds.0 (attrs_first lists groups) r

  -- For a record that is no table the coloured handler writes what the plain handler writes, coloured
  -- by the level, when all attributes were added before the groups were opened. `text`, what slog's
  -- text handler writes, adds the attributes of its WithAttrs calls.
  pub colored_same :
      (lists : List (List Attr)) (groups : List String) (r : LogRecord)
      → AddsAttrs
      → is_table_record r ≡ false
      → (handle text write_error (derived (new_text_handler true) (attrs_first lists groups)) r).0
        ≡ map
            (colorize r.level)
            (handle text write_error
              (derived (new_text_handler false) (attrs_first lists groups))
              r).0
  colored_same lists groups r adds plain =
      let ds = attrs_first lists groups in
      colored_line ds r plain
      ∙ ap (λ line. colorize r.level line ∷ []) (shape adds lists groups r)
      ∙ sym (ap (map (colorize r.level)) (plain_line ds r plain))

  -- Attributes that are added inside a group stand outside it in the coloured log, for a record that is
  -- no table: the plain handler
  -- writes the line of a handler with the group and then the attributes, the coloured one that of a
  -- handler with the attributes and then the group.
  pub group_lost :
      (group : String) (a : Attr) (attrs : List Attr) (r : LogRecord)
      → is_table_record r ≡ false
      → ((handle text write_error
            (derived (new_text_handler false) (with_group group ∷ with_attrs (a ∷ attrs) ∷ []))
            r).0
          ≡ text (with_group group ∷ with_attrs (a ∷ attrs) ∷ []) r ∷ [])
        × ((handle text write_error
              (derived (new_text_handler true) (with_group group ∷ with_attrs (a ∷ attrs) ∷ []))
              r).0
            ≡ colorize r.level (text (with_attrs (a ∷ attrs) ∷ with_group group ∷ []) r) ∷ [])
  unfolding replay
  group_lost group a attrs r plain = (
    plain_line (with_group group ∷ with_attrs (a ∷ attrs) ∷ []) r plain,
    colored_line (with_group group ∷ with_attrs (a ∷ attrs) ∷ []) r plain
        ∙ ap
            (λ more. colorize r.level (text (with_attrs (a ∷ more) ∷ with_group group ∷ []) r) ∷ [])
            (append-nil attrs),
  )
