-- ===== src/Base/Json.antt =====
-- `serde_json::Value`, with the methods that the code calls. A `Map` is the crate's default, a B-tree:
-- its members stand in the order of their keys.
use Prim.Native.Nat.{ℕ, suc}
use mathlib.Core.Path.{◌≡◌, refl}
use mathlib.Core.Bool.{Bool, true, false, ◌||◌}
use mathlib.Core.Option.{Option, none, some}
use native.Mathlib.Omega.{arith}
use opencord_server.Base.Test.{if◌then◌else◌}
use opencord_server.Base.Strings.{Text, text_ltb}
use opencord_server.Base.Equality.{text_eqb, text_eqb_iff}

-- `Number`: a float is its bit pattern, into which the code does not look.
pub data Number : Type 0 where
  pos_int : ℕ → Number
  neg_int : ℕ → Number
  float : ℕ → Number

mutual
  pub data Value : Type 0 where
    null : Value
    bool : Bool → Value
    number : Number → Value
    string : Text → Value
    array : Values → Value
    object : Members → Value

  pub data Values : Type 0 where
    nil : Values
    cons : Value → Values → Values

  pub data Members : Type 0 where
    end : Members
    member : Text → Value → Members → Members

abbrev pub is_null : Value → Bool
is_null null = true
is_null _ = false

abbrev pub as_str : Value → Option Text
as_str (string s) = some s
as_str _ = none

abbrev pub as_u64 : Value → Option ℕ
as_u64 (number (pos_int n)) = some n
as_u64 _ = none

abbrev pub as_array : Value → Option Values
as_array (array vs) = some vs
as_array _ = none

abbrev pub as_object : Value → Option Members
as_object (object m) = some m
as_object _ = none

abbrev pub is_object : Value → Bool
is_object (object m) = true
is_object _ = false

abbrev pub values_len : Values → ℕ
values_len nil = 0
values_len (cons _ vs) = suc (values_len vs)

-- `Map::get`
unfoldable pub get_member : Members → Text → Option Value
get_member end k = none
get_member (member j v m) k = if text_eqb j k then some v else get_member m k

-- `Map::insert`
unfoldable pub insert_member : Members → Text → Value → Members
insert_member end k v = member k v end
insert_member (member j w m) k v =
    if text_eqb j k
    then member k v m
    else if text_ltb k j
    then member k v (member j w m)
    else member j w (insert_member m k v)

-- `Map::len`
unfoldable pub members_len : Members → ℕ
members_len end = 0
members_len (member _ _ m) = suc (members_len m)

-- `keys().any(p)`
unfoldable pub any_key : (Text → Bool) → Members → Bool
any_key p end = false
any_key p (member k v m) = p k || any_key p m

pub get_member-insert_member :
    (m : Members) (k j : Text) (v : Value)
    → get_member (insert_member m k v) j ≡ (if text_eqb k j then some v else get_member m j)
unfolding get_member insert_member
get_member-insert_member end k j v = refl
get_member-insert_member (member i w m) k j v =
    ground (
      arith,
      text_eqb_iff k j,
      text_eqb_iff i k,
      text_eqb_iff i j,
      get_member-insert_member m k j v,
    )

pub any_key-insert_member :
    (p : Text → Bool) (m : Members) (k : Text) (v : Value)
    → any_key p m ≡ false
    → p k ≡ false
    → any_key p (insert_member m k v) ≡ false
unfolding any_key insert_member
any_key-insert_member p end k v h e = rw e
any_key-insert_member p (member i w m) k v h e = ground (arith, any_key-insert_member p m k v)

-- An `if let Some(v)` around an insertion.
unfoldable pub put : Text → Option Value → Members → Members
put k none m = m
put k (some v) m = insert_member m k v

pub any_key-put :
    (p : Text → Bool) (k : Text) (o : Option Value) (m : Members)
    → any_key p m ≡ false
    → p k ≡ false
    → any_key p (put k o m) ≡ false
unfolding put
any_key-put p k none m h e = h
any_key-put p k (some v) m h e = any_key-insert_member p m k v h e

pub get_member-put_new :
    (k : Text) (o : Option Value) (m : Members)
    → get_member m k ≡ none
    → get_member (put k o m) k ≡ o
unfolding put
get_member-put_new k none m h = h
get_member-put_new k (some v) m h =
    ground (arith, get_member-insert_member m k k v, text_eqb_iff k k)

pub get_member-put_ne :
    (k j : Text) (o : Option Value) (m : Members)
    → text_eqb k j ≡ false
    → get_member (put k o m) j ≡ get_member m j
unfolding put
get_member-put_ne k j none m h = ground arith
get_member-put_ne k j (some v) m h = ground (arith, get_member-insert_member m k j v, h)

-- `o`, and where it is nothing `other`.
abbrev pub or_else : Option Value → Option Value → Option Value
or_else none other = other
or_else (some v) other = some v

pub or_else-none : (o : Option Value) → or_else o none ≡ o
or_else-none none = refl
or_else-none (some v) = refl

pub get_member-put :
    (k j : Text) (o : Option Value) (m : Members)
    → get_member (put k o m) j
      ≡ (if text_eqb k j then or_else o (get_member m j) else get_member m j)
unfolding put
get_member-put k j none m = ground arith
get_member-put k j (some v) m = get_member-insert_member m k j v
