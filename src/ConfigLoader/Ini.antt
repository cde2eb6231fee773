-- ===== src/ConfigLoader/Ini.antt =====
-- `trim` and `parseINI`. The two-level map is the list of its assignments, the newest first.
use aeron_archive_replay.Base.{
  ℕ, Bool, false, ◌&&◌, ◌||◌, Option, none, some, List, [], ◌∷◌, ◌++◌, ◌==◌, if◌then◌else◌, Text,
  is_empty, same_text,
}

-- A byte of " \t\r\n".
abbrev pub is_blank : ℕ → Bool
is_blank c = c == b' ' || c == b'\t' || c == b'\r' || c == b'\n'

unfoldable pub trim_left : Text → Text
trim_left [] = []
trim_left (c ∷ t) = let rest = trim_left t in if is_blank c then rest else c ∷ t

unfoldable pub trim_right : Text → Text
trim_right [] = []
trim_right (c ∷ t) = let rest = trim_right t in if is_blank c && is_empty rest then [] else c ∷ rest

-- From the first byte that is not blank to the last.
unfoldable pub trim : Text → Text
unfolding trim_left trim_right
trim t = trim_right (trim_left t)

pub record Entry : Type 0 where
  pub section : Text
  pub key : Text
  pub value : Text

-- `ini_data[section][key]`, where both counts are not 0.
unfoldable pub lookup : List Entry → Text → Text → Option Text
lookup [] section key = none
lookup (e ∷ entries) section key =
    let rest = lookup entries section key in
    if same_text e.section section && same_text e.key key then some e.value else rest

pub record Reader : Type 0 where
  pub current_section : Text
  pub result : List Entry

-- Around the first `=`, `line.substr(0, equals_pos)` and `line.substr(equals_pos + 1)`.
unfoldable pub split_equals : Text → Option (Text × Text)
split_equals [] = none
split_equals (c ∷ t) =
    let rest = split_equals t in
    if c == b'=' then some ([], t) else elim rest [ none ↦ none | some p ↦ some (c ∷ p.0, p.1) ]

unfoldable pub ends_with : Text → ℕ → Bool
ends_with [] c = false
ends_with (x ∷ []) c = x == c
ends_with (x ∷ y ∷ t) c = ends_with (y ∷ t) c

abbrev pub without_last : Text → Text
without_last [] = []
without_last (x ∷ []) = []
without_last (x ∷ y ∷ t) = x ∷ without_last (y ∷ t)

-- `result[current_section][key] = value`, under the test of the section.
unfoldable pub assign : Reader → Option (Text × Text) → Reader
assign r none = r
assign r (some (key, value)) = if is_empty r.current_section then r else record r {
  result = record { section = r.current_section; key = trim key; value = trim value } ∷ r.result;
}

-- One line, trimmed.
unfoldable pub read_trimmed : Reader → Text → Reader
unfolding split_equals ends_with assign
read_trimmed r [] = r
read_trimmed r (c ∷ t) =
    if c == b'#' || c == b';'
    then r
    else if c == b'[' && ends_with (c ∷ t) b']'
    then record r { current_section = trim (without_last t) }
    else assign r (split_equals (c ∷ t))

unfoldable pub read_line : Reader → Text → Reader
unfolding read_trimmed
read_line r line = read_trimmed r (trim line)

-- `getline` until the end; `line` is the line so far.
unfoldable pub read_lines : Reader → Text → Text → Reader
unfolding read_line
read_lines r line [] = read_line r line
read_lines r line (c ∷ t) =
    if c == b'\n' then read_lines (read_line r line) [] t else read_lines r (line ++ c ∷ []) t

-- `none` where the file does not open.
unfoldable pub parse_ini : Option Text → Option (List Entry)
unfolding read_lines
parse_ini none = none
parse_ini (some content) =
    some (read_lines (record { current_section = []; result = [] }) [] content).result
