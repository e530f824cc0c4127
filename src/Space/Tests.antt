-- ===== src/Space/Tests.antt =====
-- Tests of the spaces, and their theorems at concrete inputs.
use opencord_server.Base.{
  false, if◌then◌else◌, [], ◌∷◌, some, Uuid, text, text_eqb, text_eqb_iff, pair_eqb, text_eq,
  nat_eq, pair_eq, is_ascii_alphanumeric, ok, ◌≡◌, refl, arith, len, collapse,
}
use opencord_server.Base.Map.{get, insert}
use opencord_server.Base.Action.{healthy}
use opencord_server.Space.{StoredSpace, StoredSpaceMember, normalize_name}
use opencord_server.Space.Slug.{slugify, lower_chars}
use opencord_server.Space.Slugs.{IsSlug, slugify-IsSlug}
use opencord_server.Space.Letters.{letters, letters-slugify, is_ok}
use opencord_server.Space.Memory
use opencord_server.Space.Memory.{
  MemorySpaceState, owner, active, member_key, slug_key, membership, memory_store, empty_state,
  create_space_body, add_member_body, remove_member_body, archive_space_body, get_for_user_body,
}
use opencord_server.Space.Service
use opencord_server.Space.Commands.{create, add_member, remove_member, run, run_all}
use opencord_server.Space.Index.{IsIndexed, run_all-slug_unique}
use opencord_server.Space.Members.{IsOwner, run_all-IsOwner}
use opencord_server.Space.Access.{get_for_user-add_member}
use opencord_server.Space.Created.{normalize_name_idem, get_for_user-create}

-- A slug keeps letters and digits, and one dash for what stands between them.
slug_of_name :
    (slugify (text "  Team & Friends 2! ") ≡ ok (text "team-friends-2"))
    × (is_ok (slugify (text "!?")) ≡ false)
unfolding slugify is_ascii_alphanumeric
slug_of_name = (refl, refl)

abbrev team : StoredSpace
team = record {
  id = 1;
  organization_id = 7;
  slug = text "team";
  name = text "Team";
  owner_user_id = 9;
}

abbrev chief : StoredSpaceMember
chief = record { space_id = 1; user_id = 9; role = owner; status = active }

abbrev guest : StoredSpaceMember
guest = record { space_id = 1; user_id = 8; role = text "guest"; status = active }

abbrev sample : MemorySpaceState
sample = record {
  spaces_by_id = (1, team) ∷ [];
  space_id_by_org_slug = ((7, text "team"), 1) ∷ [];
  members_by_space_user = ((1, 9), chief) ∷ [];
}

-- The service creates this state.
sample_created : run (create 1 9 7 (text " Team ")) empty_state ≡ sample
unfolding run Service.create create_space_body normalize_name slugify collapse get insert len
    is_ascii_alphanumeric Memory.create_space
sample_created = refl

sample-IsIndexed : IsIndexed sample
unfolding get
sample-IsIndexed = record {
  own_id = λ i space h. ground arith;
  indexed = λ i space h. ground (arith, text_eqb_iff (text "team") space.slug);
}

sample-IsOwner : IsOwner 1 9 sample.members_by_space_user
unfolding get
sample-IsOwner = record { member = chief; stored = refl; owns = refl; is_here = refl }

run_all-slug_unique_example : ◌≡◌ {A = Uuid} 1 1 × (team.id ≡ 1)
unfolding run_all run Service.create create_space_body normalize_name slugify collapse get insert
    len is_ascii_alphanumeric Memory.create_space text_eqb
run_all-slug_unique_example =
    run_all-slug_unique (create 1 9 7 (text "Team") ∷ create 2 9 7 (text "team!") ∷ []) 1 1 team
      team refl refl refl refl

run_all-IsOwner_example :
    IsOwner 1 9
      (run_all
        (add_member 1 9 (text "guest") ∷ remove_member 1 9 ∷ [])
        sample).members_by_space_user
run_all-IsOwner_example =
    run_all-IsOwner 1 9 (add_member 1 9 (text "guest") ∷ remove_member 1 9 ∷ []) sample
      sample-IsOwner

abbrev with_guest : MemorySpaceState
with_guest = record sample { members_by_space_user = ((1, 9), chief) ∷ ((1, 8), guest) ∷ [] }

get_for_user-add_member_example : get_for_user_body 8 1 with_guest ≡ (
    if pair_eqb (member_key guest) (1, 8)
    then some (membership team (text "guest"))
    else get_for_user_body 8 1 sample)
unfolding add_member_body get insert
get_for_user-add_member_example =
    get_for_user-add_member guest sample with_guest (membership team (text "guest")) 8 1 refl refl

abbrev without_guest : MemorySpaceState
without_guest = record sample {
  members_by_space_user =
      ((1, 9), chief) ∷ ((1, 8), record guest { status = text "inactive" }) ∷ [];
}

get_for_user-create_example :
    Service.get_for_user memory_store 9 1 (healthy sample)
    ≡ (ok (membership team owner), healthy sample)
unfolding Service.create create_space_body normalize_name slugify collapse get insert len
    is_ascii_alphanumeric Memory.create_space
get_for_user-create_example =
    get_for_user-create 1 9 7 (text "Team") empty_state sample (membership team owner) refl

normalize_name_idem_example : normalize_name (text "Our Team") ≡ ok (text "Our Team")
unfolding normalize_name collapse len
normalize_name_idem_example = normalize_name_idem (text " Our   Team ") refl

slugify-IsSlug_example : IsSlug (text "our-team")
unfolding slugify is_ascii_alphanumeric
slugify-IsSlug_example = slugify-IsSlug (text "Our Team!") refl

letters-slugify_example : letters (text "our-team") ≡ letters (lower_chars (text "Our Team!"))
unfolding slugify is_ascii_alphanumeric
letters-slugify_example = letters-slugify (text "Our Team!") refl
