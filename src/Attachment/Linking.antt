-- ===== src/Attachment/Linking.antt =====
-- Validating attachments for a message and linking them to it, over the in-memory store.
use opencord_server.Base.{
  false, ltb, nat_eqb, nat_eqb_iff, map, Option, sym, ◌∙◌, if◌then◌else◌, List, [], ◌∷◌, All,
  length, contains, some, Uuid, nat_eq, Result, ok, err, ◌≡◌, refl, arith, ap, Bool, Bool-cases,
  Option-cases, inl, inr,
}
use mathlib.Core.Option
use opencord_server.Base.Action.{healthy, result-locked, state-locked}
use opencord_server.Base.Map.{get, insert, get-insert}
use opencord_server.Attachment.{Attachment, AttachmentError, linked, store_unavailable}
use opencord_server.Attachment.Memory
use opencord_server.Attachment.Memory.{
  MemoryAttachmentState, State, memory_store, link_body, as_linked, push_first,
}
use opencord_server.Attachment.Service
use opencord_server.Attachment.Service.{is_unfit}

-- An attachment is stored under the id, and passes.
record IsFit (s : MemoryAttachmentState) (unfit : Attachment → Bool) (id : Uuid) : Type 0 where
  attachment : Attachment
  stored : get s.attachments_by_id id ≡ some attachment
  fits : unfit attachment ≡ false

validate_ids-IsFit :
    (unfit : Attachment → Bool) (seen ids : List Uuid) (s : MemoryAttachmentState) (t : State)
    → Service.validate_ids memory_store unfit seen ids (healthy s) ≡ (ok tt, t)
    → All (IsFit s unfit) ids × (t ≡ healthy s)
unfolding Service.validate_ids Memory.get_attachment
validate_ids-IsFit unfit seen [] s t h = (tt, ground (arith, h))
validate_ids-IsFit unfit seen (id ∷ ids) s t h = elim (Bool-cases (contains seen id)) [
  | inl again ↦ cc (rw again at h)
  | inr new ↦ elim (Option-cases (get s.attachments_by_id id)) [
    | inl missing ↦ cc (rw (new, missing) at h)
    | inr (a, found) ↦ elim (Bool-cases (unfit a)) [
      | inl bad ↦ cc (rw (new, found, bad) at h)
      | inr good ↦
          let (rest, same) =
            validate_ids-IsFit unfit (id ∷ seen) ids s t (rw (new, found, good) at h) in
          ((record { attachment = a; stored = found; fits = good }, rest), same)
    ]
  ]
]

-- There is an attachment under each of the ids.
abbrev AreStored : MemoryAttachmentState → List Uuid → Type 0
AreStored s ids = All (λ id. (a : Attachment) × (get s.attachments_by_id id ≡ some a)) ids

abbrev pub link_first : Uuid → Uuid → Attachment → MemoryAttachmentState → MemoryAttachmentState
link_first message_id id a s = record s {
  attachments_by_id = insert s.attachments_by_id id (as_linked message_id a);
}

AreStored-link_first :
    (message_id id : Uuid) (a : Attachment) (s : MemoryAttachmentState) (ids : List Uuid)
    → AreStored s ids
    → AreStored (link_first message_id id a s) ids
AreStored-link_first message_id id a s [] h = tt
AreStored-link_first message_id id a s (j ∷ ids) ((b, found), h) =
    elim (Bool-cases (nat_eqb id j)) [
      | inl same ↦ (
        (
          as_linked message_id a,
          ground (arith, get-insert s.attachments_by_id id j (as_linked message_id a), same),
        ),
        AreStored-link_first message_id id a s ids h,
      )
      | inr other ↦ (
        (
          b,
          ground
              (arith, get-insert s.attachments_by_id id j (as_linked message_id a), other, found),
        ),
        AreStored-link_first message_id id a s ids h,
      )
    ]

push_first-ok :
    {S : Type 0} (a : Attachment) (xs : List Attachment)
    (r : Result AttachmentError (List Attachment) × S)
    → r.0 ≡ ok xs
    → (push_first a r).0 ≡ ok (a ∷ xs)
push_first-ok a xs (ok ys, s) h = ground (arith, h)
push_first-ok a xs (err e, s) h = cc

pub push_first-state :
    {S : Type 0} (a : Attachment) (r : Result AttachmentError (List Attachment) × S)
    → (push_first a r).1 ≡ r.1
push_first-state a (ok ys, s) = refl
push_first-state a (err e, s) = refl

pub link_body-cons :
    (message_id id : Uuid) (ids : List Uuid) (a : Attachment) (s : MemoryAttachmentState)
    → get s.attachments_by_id id ≡ some a
    → link_body message_id (id ∷ ids) s
      ≡ push_first
          (as_linked message_id a)
          (link_body message_id ids (link_first message_id id a s))
unfolding link_body
link_body-cons message_id id ids a s found = rw (found, link_body) refl

-- What becomes of an attachment that a message takes.
abbrev pub taken_by : Uuid → Attachment → Attachment
taken_by message_id a = record a { message_id = some message_id; status = linked }

-- The attachments under the ids, as the message takes them.
abbrev pub taken : Uuid → List Uuid → MemoryAttachmentState → List (Option Attachment)
taken message_id ids s =
    map (λ id. Option.map (taken_by message_id) (get s.attachments_by_id id)) ids

taken-link_first :
    (message_id id : Uuid) (a : Attachment) (s : MemoryAttachmentState) (ids : List Uuid)
    → get s.attachments_by_id id ≡ some a
    → taken message_id ids (link_first message_id id a s) ≡ taken message_id ids s
taken-link_first message_id id a s [] found = refl
taken-link_first message_id id a s (j ∷ ids) found = elim (Bool-cases (nat_eqb id j)) [
  | inl same ↦
      rw
        (
          taken-link_first message_id id a s ids found,
          get-insert s.attachments_by_id id j (as_linked message_id a),
          same,
          sym ((nat_eqb_iff id j).0 same),
          found,
        )
        refl
  | inr other ↦
      rw
        (
          taken-link_first message_id id a s ids found,
          get-insert s.attachments_by_id id j (as_linked message_id a),
          other,
        )
        refl
]

-- The loop ends well, with the attachments under the ids.
link_body-ok :
    (message_id : Uuid) (ids : List Uuid) (s : MemoryAttachmentState)
    → AreStored s ids
    → (xs : List Attachment) × ((link_body message_id ids s).0 ≡ ok xs)
      × (map some xs ≡ taken message_id ids s)
link_body-ok message_id [] s h = ([], unfold link_body in refl, refl)
link_body-ok message_id (id ∷ ids) s ((a, found), h) =
    let s' = link_first message_id id a s in
    let (xs, good, same) =
      link_body-ok message_id ids s' (AreStored-link_first message_id id a s ids h) in
    (
      as_linked message_id a ∷ xs,
      rw (link_body-cons message_id id ids a s found)
          (push_first-ok (as_linked message_id a) xs (link_body message_id ids s') good),
      rw (found) (
          ap (λ ys. some (as_linked message_id a) ∷ ys)
            (same ∙ taken-link_first message_id id a s ids found)),
    )

-- The loop leaves the contents alone.
link_body-content :
    (message_id : Uuid) (ids : List Uuid) (s : MemoryAttachmentState)
    → AreStored s ids
    → (link_body message_id ids s).1.content_by_id ≡ s.content_by_id
link_body-content message_id [] s h = unfold link_body in refl
link_body-content message_id (id ∷ ids) s ((a, found), h) =
    let s' = link_first message_id id a s in
    rw
      (
        link_body-cons message_id id ids a s found,
        push_first-state (as_linked message_id a) (link_body message_id ids s'),
      )
      (link_body-content message_id ids s' (AreStored-link_first message_id id a s ids h))

-- What is stored after the loop.
link_body-get :
    (message_id : Uuid) (ids : List Uuid) (s : MemoryAttachmentState) (j : Uuid)
    → AreStored s ids
    → get (link_body message_id ids s).1.attachments_by_id j ≡ (
        if contains ids j
        then Option.map (as_linked message_id) (get s.attachments_by_id j)
        else get s.attachments_by_id j)
link_body-get message_id [] s j h = unfold link_body in refl
link_body-get message_id (id ∷ ids) s j ((a, found), h) =
    let s' = link_first message_id id a s in
    let rest = link_body-get message_id ids s' j (AreStored-link_first message_id id a s ids h) in
    rw
      (
        link_body-cons message_id id ids a s found,
        push_first-state (as_linked message_id a) (link_body message_id ids s'),
      )
      (ground (arith, rest, found, get-insert s.attachments_by_id id j (as_linked message_id a)))

All-AreStored :
    (s : MemoryAttachmentState) (unfit : Attachment → Bool) (ids : List Uuid)
    → All (IsFit s unfit) ids
    → AreStored s ids
All-AreStored s unfit [] h = tt
All-AreStored s unfit (id ∷ ids) (fit, h) =
    ((fit.attachment, fit.stored), All-AreStored s unfit ids h)

-- Over the in-memory store with a lock that is not poisoned: if `validate_for_message` lets at least
-- one attachment through, it changes nothing, and linking them right after it succeeds: it returns,
-- in the order of the ids, the attachments that were stored under them, now with the message and the
-- status `linked`; these are stored in place of the old ones; every other attachment, all contents
-- and the lock stay as they were.
pub link_to_message-validate_for_message :
    (organization_id space_id channel_id uploader_user_id message_id first : Uuid)
    (rest : List Uuid) (s : MemoryAttachmentState) (t : State)
    → let ids = first ∷ rest in
      Service.validate_for_message memory_store organization_id space_id channel_id uploader_user_id
          ids
          (healthy s)
        ≡ (ok tt, t)
      → let (r, t') = Service.link_to_message memory_store message_id ids t in
        (t ≡ healthy s)
        × ((xs : List Attachment) × (r ≡ ok xs) × (map some xs ≡ taken message_id ids s))
        × ((j : Uuid)
            → get t'.guarded.attachments_by_id j ≡ (
                if contains ids j
                then Option.map (taken_by message_id) (get s.attachments_by_id j)
                else get s.attachments_by_id j))
        × (t'.guarded.content_by_id ≡ s.content_by_id)
        × (t'.poisoned ≡ false)
unfolding Service.validate_for_message Service.link_to_message Memory.link_attachments_to_message
link_to_message-validate_for_message organization_id space_id channel_id uploader_user_id message_id
      first rest s t h =
    let ids = first ∷ rest in
    let unfit = is_unfit organization_id space_id channel_id uploader_user_id in
    elim (Bool-cases (ltb 10 (length ids))) [
      | inl many ↦ cc (rw many at h)
      | inr few ↦
          let (fit, same) = validate_ids-IsFit unfit [] ids s t (rw few at h) in
          let stored = All-AreStored s unfit ids fit in
          let (xs, good, exact) = link_body-ok message_id ids s stored in
          (
            same,
            (
              xs,
              rw (same, result-locked store_unavailable (link_body message_id ids) s) good,
              exact,
            ),
            (λ j.
                rw (same, state-locked store_unavailable (link_body message_id ids) s)
                  (link_body-get message_id ids s j stored)),
            rw (same, state-locked store_unavailable (link_body message_id ids) s)
                (link_body-content message_id ids s stored),
            rw same refl,
          )
    ]
