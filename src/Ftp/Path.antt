-- ===== src/Ftp/Path.antt =====
-- src/ftp_server.cpp, paths: `resolve` and the working directory of `cwd_cmd`.
pub mod Parts
pub mod Resolving
use mock_services.Base.{
  ℕ, Bool, true, false, not, ◌&&◌, Option, none, some, List, [], ◌∷◌, ◌++◌, map, nat_eq,
  if◌then◌else◌, length, take, Text, text, ◌==◌, text_key,
}

-- `s.compare(0, prefix.size(), prefix) == 0`
unfoldable pub starts_with : Text → Text → Bool
starts_with s prefix = take (length prefix) s == prefix

-- `for (auto& c : s) if (c == '\\') c = '/';`
unfoldable pub forward_slashes : Text → Text
forward_slashes = map (λ c. if nat_eq c b'\\' then b'/' else c)

abbrev pub is_empty : Text → Bool
is_empty [] = true
is_empty (_ ∷ _) = false

-- `parts.pop_back()`
unfoldable pub pop_back : List Text → List Text
pop_back [] = []
pop_back (part ∷ []) = []
pop_back (part ∷ next ∷ parts) = part ∷ pop_back (next ∷ parts)

-- What both loops do with a part that is not "..".
unfoldable pub keep_part : List Text → Text → List Text
keep_part parts part =
    if not (is_empty part) && not (part == text ".") then parts ++ (part ∷ []) else parts

-- The parts joined by slashes.
unfoldable pub join_parts : List Text → Text
join_parts [] = []
join_parts (part ∷ []) = part
join_parts (part ∷ next ∷ parts) = part ++ (b'/' ∷ join_parts (next ∷ parts))

-- A ".." with nothing before it ends `resolve` with the empty path.
unfoldable pub close_part : List Text → Text → Option (List Text)
close_part [] part = if part == text ".." then none else some (keep_part [] part)
close_part (first ∷ parts) part =
    if part == text ".."
    then some (pop_back (first ∷ parts))
    else some (keep_part (first ∷ parts) part)

abbrev and_then : Option (List Text) → (List Text → Option (List Text)) → Option (List Text)
and_then none next = none
and_then (some parts) next = next parts

-- The loop of `resolve` over the raw path; behind its end stands one more slash.
unfoldable pub parts_loop : List Text → Text → Text → Option (List Text)
parts_loop parts current_part [] = close_part parts current_part
parts_loop parts current_part (character ∷ raw) =
    let closed = and_then (close_part parts current_part) (λ parts'. parts_loop parts' [] raw) in
    let longer = parts_loop parts (current_part ++ (character ∷ [])) raw in
    if nat_eq character b'/' then closed else longer

unfoldable pub with_cwd : Text → Text → Text
with_cwd base [] = base
with_cwd base (c ∷ cwd) = base ++ (b'/' ∷ c ∷ cwd)

unfoldable pub with_target : Text → Text → Text → Text
with_target base raw [] = raw
with_target base raw (c ∷ target) =
    if nat_eq c b'/' then base ++ (b'/' ∷ target) else raw ++ (b'/' ∷ c ∷ target)

-- `if (!raw.empty() && raw[0] == '/') result.insert(0, "/");`
unfoldable pub with_root : Text → Text → Text
with_root [] result = result
with_root (c ∷ raw) result = if nat_eq c b'/' then b'/' ∷ result else result

-- The end of `resolve`: the empty path stands for a refusal.
unfoldable pub checked : Text → Text → Text
checked base [] = base
checked base (c ∷ result) =
    if starts_with (c ∷ result) (forward_slashes base) then c ∷ result else []

unfoldable pub resolved : Text → Text → Option (List Text) → Text
resolved base raw none = []
resolved base raw (some parts) = checked base (with_root raw (join_parts parts))

unfoldable pub resolve : Text → Text → Text → Text
resolve base cwd target =
    let raw = forward_slashes (with_target base (with_cwd base cwd) target) in
    resolved base raw (parts_loop [] [] raw)

-- The loop of `cwd_cmd`: a ".." with nothing before it is ignored.
unfoldable pub close_cwd_part : List Text → Text → List Text
close_cwd_part parts part = if part == text ".." then pop_back parts else keep_part parts part

unfoldable pub cwd_loop : List Text → Text → Text → List Text
cwd_loop parts current_part [] = close_cwd_part parts current_part
cwd_loop parts current_part (character ∷ path) =
    let closed = cwd_loop (close_cwd_part parts current_part) [] path in
    let longer = cwd_loop parts (current_part ++ (character ∷ [])) path in
    if nat_eq character b'/' then closed else longer

-- The path that `cwd_cmd` takes apart.
unfoldable pub cwd_path : Text → Text → Text
cwd_path cwd [] = cwd
cwd_path [] (c ∷ arg) = if nat_eq c b'/' then arg else c ∷ arg
cwd_path (d ∷ cwd) (c ∷ arg) = if nat_eq c b'/' then arg else (d ∷ cwd) ++ (b'/' ∷ c ∷ arg)

-- The new working directory, for an argument that is not empty.
unfoldable pub change_directory : Text → Text → Text
change_directory cwd arg = join_parts (cwd_loop [] [] (cwd_path cwd arg))
