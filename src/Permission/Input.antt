-- ===== src/Permission/Input.antt =====
-- src/domain/permission.rs: the checks on a role's name, colour and list of permissions.
use Prim.Native.Nat.{bit_or}
use opencord_server.Base.{
  ℕ, ◌&&◌, ◌||◌, Bool, nat_eqb, leb, if◌then◌else◌, List, [], ◌∷◌, all, Option, none, some, Text,
  text, len, starts_with, trim, collapse, is_ascii_digit, Result, ok, err,
}
use opencord_server.Base.Fallible.{◌>>=◌}
use opencord_server.Permission.{bit, PermissionError, invalid_input, parse}

unfoldable pub normalize_role_name : Text → Result PermissionError Text
normalize_role_name raw =
    let name = collapse raw in
    if leb 1 (len name) && leb (len name) 80
    then ok name
    else err (invalid_input (text "role name must be between 1 and 80 characters"))

abbrev pub is_hex_digit : ℕ → Bool
is_hex_digit c = is_ascii_digit c || leb b'a' c && leb c b'f' || leb b'A' c && leb c b'F'

-- `chars().skip(1)`
abbrev pub skip_one : Text → Text
skip_one [] = []
skip_one (_ ∷ s) = s

unfoldable pub valid_hex_color : Text → Bool
valid_hex_color color =
    nat_eqb (len color) 7 && starts_with color (text "#") && all is_hex_digit (skip_one color)

unfoldable pub normalize_color : Option Text → Result PermissionError (Option Text)
normalize_color none = ok none
normalize_color (some raw) =
    let color = trim raw in
    if valid_hex_color color
    then ok (some color)
    else err (invalid_input (text "role color must be a hex color like #5865f2"))

-- `try_fold`, with the bitset so far.
unfoldable pub parse_permissions_from : ℕ → List Text → Result PermissionError ℕ
parse_permissions_from bitset [] = ok bitset
parse_permissions_from bitset (name ∷ names) = do
  p ← parse name
  parse_permissions_from (bit_or bitset (bit p)) names

unfoldable pub parse_permission_list : List Text → Result PermissionError ℕ
unfolding parse_permissions_from
parse_permission_list names = parse_permissions_from 0 names
