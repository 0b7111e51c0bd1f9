-- ===== src/Golang/Paths.antt =====
-- Package path/filepath on a system whose separator is the slash: Clean, Join and IsAbs. A path is cut
-- at its slashes, and cleaning goes through the parts with the cleaned path so far, last part first.
pub mod Under
pub mod Slashes
pub mod Tidy
use Prim.Native.Char.{code}
use Prim.Native.String.{[], ◌∷◌, ◌++◌}
use rw_node_go.Common.{Bool, true, false, ◌||◌, String, ◌==◌, List, nat_eq, if◌then◌else◌}
use rw_node_go.Golang.Strings.{with_first}

-- strings.Split by a slash
unfoldable pub split_path : String → List String
split_path [] = List.◌∷◌ [] List.[]
split_path (c ∷ s) =
    let rest = split_path s in if nat_eq (code c) 47 then List.◌∷◌ [] rest else with_first c rest

-- filepath.IsAbs
unfoldable pub is_rooted : String → Bool
is_rooted [] = false
is_rooted (c ∷ s) = nat_eq (code c) 47

-- A part ".." takes the last part away, or stays in front of a path that is not rooted.
abbrev pub go_up : Bool → List String → List String
go_up true List.[] = List.[]
go_up false List.[] = List.◌∷◌ ".." List.[]
go_up rooted (List.◌∷◌ part done) =
    if part == ".." then List.◌∷◌ ".." (List.◌∷◌ part done) else done

unfoldable pub clean_part : Bool → List String → String → List String
clean_part rooted done part =
    if part == "" || part == "."
    then done
    else if part == ".."
    then go_up rooted done
    else List.◌∷◌ part done

unfoldable pub clean_parts : Bool → List String → List String → List String
unfolding clean_part
clean_parts rooted done List.[] = done
clean_parts rooted done (List.◌∷◌ part parts) =
    clean_parts rooted (clean_part rooted done part) parts

-- The parts of a clean path, last part first.
unfoldable pub cleaned : String → List String
unfolding clean_parts split_path is_rooted
cleaned path = clean_parts (is_rooted path) List.[] (split_path path)

unfoldable pub join_reversed : List String → String
join_reversed List.[] = ""
join_reversed (List.◌∷◌ part List.[]) = part
join_reversed (List.◌∷◌ part (List.◌∷◌ before done)) =
    join_reversed (List.◌∷◌ before done) ++ "/" ++ part

abbrev pub path_text : Bool → List String → String
path_text true done = "/" ++ join_reversed done
path_text false List.[] = "."
path_text false (List.◌∷◌ part done) = join_reversed (List.◌∷◌ part done)

-- filepath.Clean
unfoldable pub clean : String → String
unfolding cleaned is_rooted join_reversed
clean path = path_text (is_rooted path) (cleaned path)

-- filepath.Join of two parts, the second not empty
unfoldable pub join_path : String → String → String
unfolding clean
join_path dir name = if dir == "" then clean name else clean (dir ++ "/" ++ name)
