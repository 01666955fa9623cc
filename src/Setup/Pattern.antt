-- ===== src/Setup/Pattern.antt =====
-- The unique ids of version 1 (__init__.py: _V1_UNIQUE_ID).
use Prim.Native.Char.{Char, code}
use Prim.Native.String.{[], ◌∷◌}
use ha_sophos_fw.Prelude.{String, Option, none, some, ◌==◌, eqb, if◌then◌else◌}
use ha_sophos_fw.Text.{is_digit}

-- A character put in front of a result.
more : Char → Option (String × String) → Option (String × String)
more c none = none
more c (some (a, b)) = some (c ∷ a, b)

-- The text up to the first "_" and the text after it.
split_underscore : String → Option (String × String)
unfolding more
split_underscore [] = none
split_underscore (c ∷ s) =
    let rest = more c (split_underscore s) in if eqb (code c) b'_' then some ([], s) else rest

more_text : Char → Option String → Option String
more_text c none = none
more_text c (some s) = some (c ∷ s)

-- The text that `.+$` matches: all of it, or all but a newline at its end.
one_line : String → Option String
unfolding more_text
one_line [] = some []
one_line (c ∷ s) =
    let rest = more_text c (one_line s) in
    if eqb (code c) 10 then (if s == "" then some [] else none) else rest

non_empty_line : Option String → Option String
non_empty_line none = none
non_empty_line (some s) = if s == "" then none else some s

after_port : Option (String × String) → Option String
unfolding one_line non_empty_line
after_port none = none
after_port (some (port, s)) = if is_digit port then non_empty_line (one_line s) else none

after_host : Option (String × String) → Option String
unfolding split_underscore after_port
after_host none = none
after_host (some (host, s)) = if host == "" then none else after_port (split_underscore s)

-- The suffix that `_V1_UNIQUE_ID` matches.
unfoldable pub v1_suffix : String → Option String
unfolding split_underscore after_host
v1_suffix uid = after_host (split_underscore uid)
