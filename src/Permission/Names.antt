-- ===== src/Permission/Names.antt =====
-- Names of permissions: parsing, printing, and lists of names as bitsets.
use Prim.Native.Nat.{bit_or}
use opencord_server.Base.{
  ℕ, zero, suc, ◌<◌, ◌^◌, ◌&&◌, ◌||◌, Bool, true, false, nat_eqb, if◌then◌else◌, List, [], ◌∷◌, map,
  any, all, filter, Text, text, trim, to_ascii_uppercase, ascii_upper, is_whitespace, text_eqb,
  text_eqb_iff, Result, ok, err, ◌≡◌, refl, ap, arith, ◌↔◌, ◌∙◌, fun_ext, inl, inr, Bool-cases,
}
use opencord_server.Base.Fallible.{◌>>=◌, >>=-Succeeds}
use opencord_server.Base.Bits.{
  test_bit, test_bit-bit_or, test_bit-zero, test_bit-pow, test_bit-ext, bit_and-pow, bit_or-lt,
}
use opencord_server.Permission.{
  Permission, PermissionError, view_channel, index, bit, permissions, as_str, parse, parse_name,
  has_bit, permission_names,
}
use opencord_server.Permission.Input.{parse_permissions_from, parse_permission_list}

parse_name-as_str : (p : Permission) → parse_name (as_str p) ≡ ok p
unfolding parse_name text_eqb
parse_name-as_str view_channel = refl
parse_name-as_str _ = refl

as_str_of_parse_name : (v : Text) (p : Permission) → parse_name v ≡ ok p → v ≡ as_str p
unfolding parse_name
as_str_of_parse_name v p h = ground (
  arith,
  text_eqb_iff v (text "VIEW_CHANNEL"),
  text_eqb_iff v (text "SEND_MESSAGES"),
  text_eqb_iff v (text "MANAGE_MESSAGES"),
  text_eqb_iff v (text "MANAGE_CHANNELS"),
  text_eqb_iff v (text "MANAGE_ROLES"),
  text_eqb_iff v (text "INVITE_MEMBERS"),
  text_eqb_iff v (text "MANAGE_SPACE"),
  text_eqb_iff v (text "CONNECT_VOICE"),
  text_eqb_iff v (text "SPEAK"),
  text_eqb_iff v (text "SHARE_SCREEN"),
  text_eqb_iff v (text "USE_VIDEO"),
)

-- `parse` accepts a text as permission p exactly when the text, trimmed and put in upper case, is
-- the name that `as_str` prints for p.
pub parse_iff :
    (value : Text) (p : Permission)
    → (parse value ≡ ok p) ↔ (to_ascii_uppercase (trim value) ≡ as_str p)
unfolding parse
parse_iff value p =
    (as_str_of_parse_name (to_ascii_uppercase (trim value)) p, λ e. rw e (parse_name-as_str p))

pub has_bit-test_bit : (b : ℕ) (p : Permission) → has_bit b p ≡ test_bit b (index p)
unfolding has_bit
has_bit-test_bit b p = bit_and-pow (index p) b

-- Whether a result is permission p, or is a permission at all.
abbrev pub is_permission : Permission → Result PermissionError Permission → Bool
is_permission p (ok q) = nat_eqb (index q) (index p)
is_permission p (err _) = false

abbrev pub is_ok : {A : Type 0} → Result PermissionError A → Bool
is_ok (ok _) = true
is_ok (err _) = false

parse_permissions_from-bits :
    (acc : ℕ) (names : List Text) (p : Permission) {b : ℕ}
    → parse_permissions_from acc names ≡ ok b
    → test_bit b (index p) ≡ (test_bit acc (index p) || any (λ n. is_permission p (parse n)) names)
unfolding parse_permissions_from
parse_permissions_from-bits acc [] p h = ground arith
parse_permissions_from-bits acc (n ∷ ns) p {b} h =
    let chain = >>=-Succeeds (parse n) _ h in
    let q = chain.value in
    let parsed = chain.first in
    let rest = chain.then_rest in
    rw parsed (
      ground (
        arith,
        parse_permissions_from-bits (bit_or acc (bit q)) ns p {b = b} rest,
        test_bit-bit_or (index p) acc (bit q),
        test_bit-pow (index q) (index p),
      ))

-- A bitset that is read from a list of names holds a permission exactly when one of the names
-- parses to it.
pub parse_permission_list-bits :
    (names : List Text) (p : Permission) {b : ℕ}
    → parse_permission_list names ≡ ok b
    → has_bit b p ≡ any (λ n. is_permission p (parse n)) names
unfolding parse_permission_list
parse_permission_list-bits names p {b} h = ground (
  arith,
  has_bit-test_bit b p,
  parse_permissions_from-bits 0 names p {b = b} h,
  test_bit-zero (index p),
)

parse_permissions_from-is_ok :
    (acc : ℕ) (names : List Text)
    → is_ok (parse_permissions_from acc names) ≡ all (λ n. is_ok (parse n)) names
unfolding parse_permissions_from
parse_permissions_from-is_ok acc [] = refl
parse_permissions_from-is_ok acc (n ∷ ns) =
    go (parse n) (λ q. parse_permissions_from-is_ok (bit_or acc (bit q)) ns)
  where
    go :
        (r : Result PermissionError Permission)
        → ((q : Permission)
            → is_ok (parse_permissions_from (bit_or acc (bit q)) ns)
              ≡ all (λ m. is_ok (parse m)) ns)
        → is_ok (◌>>=◌ r (λ q. parse_permissions_from (bit_or acc (bit q)) ns))
          ≡ (is_ok r && all (λ m. is_ok (parse m)) ns)
    go (ok q) ih = ih q
    go (err e) ih = refl

-- The list is refused exactly when one of its names does not parse.
pub parse_permission_list-is_ok :
    (names : List Text) → is_ok (parse_permission_list names) ≡ all (λ n. is_ok (parse n)) names
unfolding parse_permission_list
parse_permission_list-is_ok names = parse_permissions_from-is_ok 0 names

-- The `|` of the bits of the listed permissions that pass a test.
collect_bits : (Permission → Bool) → ℕ → List Permission → ℕ
collect_bits has acc [] = acc
collect_bits has acc (p ∷ ps) = collect_bits has (if has p then bit_or acc (bit p) else acc) ps

parse-as_str : (p : Permission) → parse (as_str p) ≡ ok p
unfolding parse text_eqb trim is_whitespace ascii_upper
parse-as_str view_channel = refl
parse-as_str _ = refl

parse_permissions_from-filter :
    (has : Permission → Bool) (acc : ℕ) (ps : List Permission)
    → parse_permissions_from acc (map as_str (filter has ps)) ≡ ok (collect_bits has acc ps)
unfolding parse_permissions_from collect_bits
parse_permissions_from-filter has acc [] = refl
parse_permissions_from-filter has acc (p ∷ ps) = elim (Bool-cases (has p)) [
  | inl yes_p ↦
      rw (yes_p, parse-as_str p) (parse_permissions_from-filter has (bit_or acc (bit p)) ps)
  | inr no_p ↦ rw no_p (parse_permissions_from-filter has acc ps)
]

collect_bits-bits :
    (has : Permission → Bool) (acc : ℕ) (ps : List Permission) (i : ℕ)
    → test_bit (collect_bits has acc ps) i
      ≡ (test_bit acc i || any (λ p. nat_eqb (index p) i && has p) ps)
unfolding collect_bits
collect_bits-bits has acc [] i = ground arith
collect_bits-bits has acc (p ∷ ps) i = ground (
  arith,
  collect_bits-bits has (if has p then bit_or acc (bit p) else acc) ps i,
  test_bit-bit_or i acc (bit p),
  test_bit-pow (index p) i,
)

bit-lt : (p : Permission) → bit p < 2 ^ 11
bit-lt view_channel = omega arith
bit-lt _ = omega arith

collect_bits-lt :
    (has : Permission → Bool) (acc : ℕ) (ps : List Permission)
    → acc < 2 ^ 11
    → collect_bits has acc ps < 2 ^ 11
unfolding collect_bits
collect_bits-lt has acc [] h = h
collect_bits-lt has acc (p ∷ ps) h =
    collect_bits-lt has (if has p then bit_or acc (bit p) else acc) ps
      (ground (arith, bit_or-lt 11 acc (bit p) h (bit-lt p)))

listed_bit :
    (has : ℕ → Bool) (i : ℕ)
    → i < 11
    → any (λ p. nat_eqb (index p) i && has (index p)) permissions ≡ has i
listed_bit has zero h = ground arith
listed_bit has (suc zero) h = ground arith
listed_bit has (suc (suc zero)) h = ground arith
listed_bit has (suc (suc (suc zero))) h = ground arith
listed_bit has (suc (suc (suc (suc zero)))) h = ground arith
listed_bit has (suc (suc (suc (suc (suc zero))))) h = ground arith
listed_bit has (suc (suc (suc (suc (suc (suc zero)))))) h = ground arith
listed_bit has (suc (suc (suc (suc (suc (suc (suc zero))))))) h = ground arith
listed_bit has (suc (suc (suc (suc (suc (suc (suc (suc zero)))))))) h = ground arith
listed_bit has (suc (suc (suc (suc (suc (suc (suc (suc (suc zero))))))))) h = ground arith
listed_bit has (suc (suc (suc (suc (suc (suc (suc (suc (suc (suc zero)))))))))) h = ground arith
listed_bit has (suc (suc (suc (suc (suc (suc (suc (suc (suc (suc (suc i))))))))))) h =
    absurd (omega arith)

-- Reading back the names of a bitset gives the bitset, if it has only the eleven known bits.
pub parse_permission_list-permission_names :
    (b : ℕ) → b < 2 ^ 11 → parse_permission_list (permission_names b) ≡ ok b
unfolding parse_permission_list permission_names
parse_permission_list-permission_names b h =
    parse_permissions_from-filter (has_bit b) 0 permissions
    ∙ ap ok (
        test_bit-ext 11 (collect_bits (has_bit b) 0 permissions) b
          (collect_bits-lt (has_bit b) 0 permissions (omega arith)) h
          (λ i hi.
            collect_bits-bits (has_bit b) 0 permissions i
            ∙ ap (λ t. t || any (λ p. nat_eqb (index p) i && has_bit b p) permissions)
                (test_bit-zero i)
            ∙ ap (λ t. any (λ p. nat_eqb (index p) i && t p) permissions)
                (fun_ext (has_bit-test_bit b))
            ∙ listed_bit (test_bit b) i hi))

parse_permissions_from-lt :
    (acc : ℕ) (names : List Text) {b : ℕ}
    → acc < 2 ^ 11
    → parse_permissions_from acc names ≡ ok b
    → b < 2 ^ 11
unfolding parse_permissions_from
parse_permissions_from-lt acc [] h e = ground arith
parse_permissions_from-lt acc (n ∷ ns) h e =
    let chain = >>=-Succeeds (parse n) _ e in
    let q = chain.value in
    let parsed = chain.first in
    let rest = chain.then_rest in
    parse_permissions_from-lt (bit_or acc (bit q)) ns (bit_or-lt 11 acc (bit q) h (bit-lt q)) rest

pub parse_permission_list-lt :
    (names : List Text) {b : ℕ} → parse_permission_list names ≡ ok b → b < 2 ^ 11
unfolding parse_permission_list
parse_permission_list-lt names e = parse_permissions_from-lt 0 names (omega arith) e
