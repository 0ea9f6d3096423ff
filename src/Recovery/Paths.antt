-- ===== src/Recovery/Paths.antt =====
-- `_safe_relative` of scripts/node_recovery.py, on the parts of a `PurePosixPath`.
pub mod Safe
pub mod Normal
use Prim.Native.Char.{Char, code}
use xray_routing_panel.Prelude.{
  ℕ, String, Bool, true, false, not, ◌&&◌, ◌||◌, List, [], ◌∷◌, ◌==◌, if◌then◌else◌, any, select,
  str_eq, is_empty, str_append, has_char, starts_with, split_by, Result, ok, err, value_error,
}

abbrev pub is_slash : ℕ → Bool
is_slash c = c == b'/'

-- `s.replace("\\", "/")`
abbrev pub with_slashes : String → String
with_slashes String.[] = String.[]
with_slashes (String.◌∷◌ c s) = String.◌∷◌ (if code c == b'\\' then "/" else c) (with_slashes s)

-- A part that a `PurePosixPath` keeps.
abbrev pub is_kept : String → Bool
is_kept part = not (is_empty part || str_eq part ".")

-- `PurePosixPath(raw).parts`, without the root
abbrev pub parts_of : String → List String
parts_of raw = select is_kept (split_by is_slash raw)

abbrev pub is_parent : String → Bool
is_parent part = str_eq part ".."

-- `PurePosixPath.as_posix` of a relative path with at least one part
abbrev pub join_parts : String → List String → String
join_parts part [] = part
join_parts part (next ∷ rest) = str_append part (String.◌∷◌ "/" (join_parts next rest))

unfoldable pub safe_parts : List String → Result String
safe_parts [] = err (value_error "unsafe path")
safe_parts (part ∷ rest) =
    if any is_parent (part ∷ rest)
    then err (value_error "unsafe path")
    else ok (join_parts part rest)

unfoldable pub safe_relative : String → Result String
unfolding safe_parts
safe_relative value =
    let raw = with_slashes value in
    if is_empty raw || has_char 0 raw || starts_with b'/' raw
    then err (value_error "unsafe path")
    else safe_parts (parts_of raw)
