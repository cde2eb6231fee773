-- ===== src/ConfigLoader/Lines.antt =====
-- Texts of whole lines, and what the reader of an INI file makes of them.
use aeron_archive_replay.Base.{
  ◌≡◌, refl, sym, ap, ◌∙◌, Bool, true, not, ◌&&◌, and_both, if_false, arith, List, [], ◌∷◌, ◌++◌,
  append_assoc, append-nil, ◌==◌, Text,
}
use aeron_archive_replay.ConfigLoader.Ini.{Reader, trim, read_line, read_lines}

-- Each line and its end.
unfoldable pub lines : List Text → Text
lines [] = []
lines (line ∷ rest) = line ++ b'\n' ∷ lines rest

-- The text has no end of a line in it.
unfoldable pub is_line : Text → Bool
is_line [] = true
is_line (c ∷ t) = not (c == b'\n') && is_line t

unfoldable pub are_lines : List Text → Bool
unfolding is_line
are_lines [] = true
are_lines (line ∷ rest) = is_line line && are_lines rest

pub read_lines-line :
    (r : Reader) (before line rest : Text)
    → is_line line ≡ true
    → read_lines r before (line ++ b'\n' ∷ rest) ≡ read_lines (read_line r (before ++ line)) [] rest
unfolding read_lines is_line
read_lines-line r before [] rest h =
    ap (λ t. read_lines (read_line r t) [] rest) (sym (append-nil before))
read_lines-line r before (c ∷ line) rest h =
    let k = and_both (not (c == b'\n')) (is_line line) h in
    if_false {b = c == b'\n'} _ (ground arith)
    ∙ read_lines-line r (before ++ c ∷ []) line rest k.1
    ∙ ap (λ t. read_lines (read_line r t) [] rest) (append_assoc before (c ∷ []) line)

unfoldable pub read_each : Reader → List Text → Reader
read_each r [] = r
read_each r (line ∷ rest) = read_each (read_line r line) rest

pub read_lines-lines :
    (r : Reader) (xs : List Text)
    → are_lines xs ≡ true
    → read_lines r [] (lines xs) ≡ read_each r xs
unfolding lines read_lines read_each read_line trim are_lines
read_lines-lines r [] h = refl
read_lines-lines r (line ∷ rest) h =
    let k = and_both (is_line line) (are_lines rest) h in
    read_lines-line r [] line (lines rest) k.0 ∙ read_lines-lines (read_line r line) rest k.1
