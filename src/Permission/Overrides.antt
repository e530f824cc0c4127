-- ===== src/Permission/Overrides.antt =====
-- What a channel's overrides mean, stated for one permission at a time, and that the bit
-- arithmetic of `apply_channel_overrides` computes it.
use Prim.Native.Nat.{bit_and, bit_or}
use opencord_server.Base.{
  ℕ, ◌<◌, ◌^◌, ◌&&◌, ◌||◌, Bool, true, false, nat_eqb, if◌then◌else◌, List, [], ◌∷◌, any, All, Uuid,
  contains, nat_eq, ◌≡◌, arith,
}
use opencord_server.Base.Bits.{
  test_bit, bit_not, test_bit-bit_or, test_bit-bit_and, test_bit-bit_not, bit_or-lt, bit_and-pow,
  test_bit-zero,
}
use opencord_server.Permission.{
  Permission, view_channel, index, has_bit, PermissionTargetKind, role_target, member_target,
  ChannelPermissionOverride,
}
use opencord_server.Permission.Evaluate.{
  Masks, no_masks, absorb, collect_masks, apply_masks, apply_channel_overrides,
}

-- Whether an override is about the user: as one of the user's roles, or as the member itself.
abbrev pub targets_role : List Uuid → PermissionTargetKind → Uuid → Bool
targets_role role_ids role_target id = contains role_ids id
targets_role role_ids member_target id = false

abbrev pub targets_member : Uuid → PermissionTargetKind → Uuid → Bool
targets_member user_id role_target id = false
targets_member user_id member_target id = nat_eqb id user_id

module _ (p : Permission) (user_id : Uuid) (role_ids : List Uuid) where
  abbrev pub role_allows : List ChannelPermissionOverride → Bool
  role_allows =
      any
        (λ o. targets_role role_ids o.target_kind o.target_id && test_bit o.allow_bitset (index p))

  abbrev pub role_denies : List ChannelPermissionOverride → Bool
  role_denies =
      any (λ o. targets_role role_ids o.target_kind o.target_id && test_bit o.deny_bitset (index p))

  abbrev pub member_allows : List ChannelPermissionOverride → Bool
  member_allows =
      any
        (λ o. targets_member user_id o.target_kind o.target_id && test_bit o.allow_bitset (index p))

  abbrev pub member_denies : List ChannelPermissionOverride → Bool
  member_denies =
      any
        (λ o. targets_member user_id o.target_kind o.target_id && test_bit o.deny_bitset (index p))

  -- The precedence: a denial for the member, then an allowance for the member, then a denial for a
  -- role, then an allowance for a role, then what the user has without overrides.
  abbrev pub granted : Bool → List ChannelPermissionOverride → Bool
  granted base os =
      if member_denies os
      then false
      else if member_allows os
      then true
      else if role_denies os
      then false
      else if role_allows os
      then true
      else base

-- The bitsets of an override are 64-bit words.
abbrev pub IsU64 : ChannelPermissionOverride → Type 0
IsU64 o = (o.allow_bitset < 2 ^ 64) × (o.deny_bitset < 2 ^ 64)

pub record MasksU64 (m : Masks) : Type 0 where
  pub role_deny_lt : m.role_deny < 2 ^ 64
  pub member_deny_lt : m.member_deny < 2 ^ 64

absorb-MasksU64 :
    (user_id : Uuid) (role_ids : List Uuid) (m : Masks) (o : ChannelPermissionOverride)
    → IsU64 o
    → MasksU64 m
    → MasksU64 (absorb user_id role_ids m o)
unfolding absorb
absorb-MasksU64 user_id role_ids m o h k = ground (
  arith,
  bit_or-lt 64 m.role_deny o.deny_bitset k.role_deny_lt h.1,
  bit_or-lt 64 m.member_deny o.deny_bitset k.member_deny_lt h.1,
)

collect_masks-MasksU64 :
    (user_id : Uuid) (role_ids : List Uuid) (m : Masks) (os : List ChannelPermissionOverride)
    → All IsU64 os
    → MasksU64 m
    → MasksU64 (collect_masks user_id role_ids m os)
unfolding collect_masks
collect_masks-MasksU64 user_id role_ids m [] h k = k
collect_masks-MasksU64 user_id role_ids m (o ∷ os) (h, hs) k =
    collect_masks-MasksU64 user_id role_ids (absorb user_id role_ids m o) os hs
      (absorb-MasksU64 user_id role_ids m o h k)

module _ (p : Permission) (user_id : Uuid) (role_ids : List Uuid) where
  -- One override, one permission: the four masks gain the bits that the override adds.
  absorb_lem :
      (m : Masks) (o : ChannelPermissionOverride)
      → let m' = absorb user_id role_ids m o in
        (test_bit m'.role_allow (index p)
          ≡ (test_bit m.role_allow (index p) || role_allows p user_id role_ids (o ∷ [])))
        × (test_bit m'.role_deny (index p)
            ≡ (test_bit m.role_deny (index p) || role_denies p user_id role_ids (o ∷ [])))
        × (test_bit m'.member_allow (index p)
            ≡ (test_bit m.member_allow (index p) || member_allows p user_id role_ids (o ∷ [])))
        × (test_bit m'.member_deny (index p)
            ≡ (test_bit m.member_deny (index p) || member_denies p user_id role_ids (o ∷ [])))
  unfolding absorb
  absorb_lem m o = ground (
    arith,
    test_bit-bit_or (index p) m.role_allow o.allow_bitset,
    test_bit-bit_or (index p) m.role_deny o.deny_bitset,
    test_bit-bit_or (index p) m.member_allow o.allow_bitset,
    test_bit-bit_or (index p) m.member_deny o.deny_bitset,
  )

  collect_masks_lem :
      (m : Masks) (os : List ChannelPermissionOverride)
      → let m' = collect_masks user_id role_ids m os in
        (test_bit m'.role_allow (index p)
          ≡ (test_bit m.role_allow (index p) || role_allows p user_id role_ids os))
        × (test_bit m'.role_deny (index p)
            ≡ (test_bit m.role_deny (index p) || role_denies p user_id role_ids os))
        × (test_bit m'.member_allow (index p)
            ≡ (test_bit m.member_allow (index p) || member_allows p user_id role_ids os))
        × (test_bit m'.member_deny (index p)
            ≡ (test_bit m.member_deny (index p) || member_denies p user_id role_ids os))
  unfolding collect_masks
  collect_masks_lem m [] = ground arith
  collect_masks_lem m (o ∷ os) =
      ground (arith, absorb_lem m o, collect_masks_lem (absorb user_id role_ids m o) os)

index-lt : (p : Permission) → index p < 64
index-lt view_channel = omega arith
index-lt _ = omega arith

apply_masks_lem :
    (p : Permission) (effective : ℕ) (m : Masks)
    → MasksU64 m
    → test_bit (apply_masks effective m) (index p) ≡ (
        if test_bit m.member_deny (index p)
        then false
        else if test_bit m.member_allow (index p)
        then true
        else if test_bit m.role_deny (index p)
        then false
        else if test_bit m.role_allow (index p)
        then true
        else test_bit effective (index p))
unfolding apply_masks
apply_masks_lem p effective m k =
    let i = index p in
    let nr = bit_not 64 m.role_deny in
    let nm = bit_not 64 m.member_deny in
    let e1 = bit_and effective nr in
    let e2 = bit_or e1 (bit_and m.role_allow nr) in
    ground (
      arith,
      test_bit-bit_not 64 i m.role_deny (index-lt p) k.role_deny_lt,
      test_bit-bit_not 64 i m.member_deny (index-lt p) k.member_deny_lt,
      test_bit-bit_and i effective nr,
      test_bit-bit_and i m.role_allow nr,
      test_bit-bit_or i e1 (bit_and m.role_allow nr),
      test_bit-bit_and i e2 nm,
      test_bit-bit_and i m.member_allow nm,
      test_bit-bit_or i (bit_and e2 nm) (bit_and m.member_allow nm),
    )

-- If the bitsets of the overrides are 64-bit words, the bit of a permission after the overrides is
-- decided by the precedence of `granted`, whose base is the bit that it had before.
pub apply_channel_overrides-granted :
    (p : Permission) (effective : ℕ) (user_id : Uuid) (role_ids : List Uuid)
    (os : List ChannelPermissionOverride)
    → All IsU64 os
    → has_bit (apply_channel_overrides effective user_id role_ids os) p
      ≡ granted p user_id role_ids (has_bit effective p) os
unfolding apply_channel_overrides has_bit
apply_channel_overrides-granted p effective user_id role_ids os h =
    let m = collect_masks user_id role_ids no_masks os in
    ground (
      arith,
      bit_and-pow (index p) (apply_masks effective m),
      bit_and-pow (index p) effective,
      apply_masks_lem p effective m
          (collect_masks-MasksU64 user_id role_ids no_masks os h (omega arith)),
      collect_masks_lem p user_id role_ids no_masks os,
      test_bit-zero (index p),
    )
