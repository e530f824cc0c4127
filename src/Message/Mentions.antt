-- ===== src/Message/Mentions.antt =====
-- What `normalize_mention_ids` of src/domain/message.rs keeps.
use opencord_server.Base.{
  false, List, [], ◌∷◌, All, Uuid, nat_eq, contains, ◌≡◌, ◌≢◌, refl, arith, ◌↔◌, inl, inr,
  Bool-cases, ap, ◌∙◌, ◌==◌,
}
use opencord_server.Base.Member.{◌∈◌}
use opencord_server.Message.Content.{first_seen, normalize_mention_ids}

-- No element comes twice.
abbrev pub AllDifferent : List Uuid → Type 0
AllDifferent [] = Unit
AllDifferent (x ∷ xs) = All (λ y. x ≢ y) xs × AllDifferent xs

first_seen-keeps :
    (seen ids : List Uuid) (x : Uuid)
    → x ∈ first_seen seen ids ↔ (x ∈ ids × (contains seen x ≡ false))
unfolding first_seen
first_seen-keeps seen [] x = (λ h. absurd h, λ h. absurd h.0)
first_seen-keeps seen (id ∷ ids) x =
    let (forth, back) = first_seen-keeps seen ids x in
    let (forth', back') = first_seen-keeps (id ∷ seen) ids x in
    elim (Bool-cases (contains seen id)) [
      | inl again ↦ rw again (
        λ h. (inr (forth h).0, (forth h).1),
        λ h. elim h.0 [ inl e ↦ cc (h.1, again, ap (contains seen) e) | inr k ↦ back (k, h.1) ],
      )
      | inr new ↦ rw new (
        elim [
          | inl e ↦ (inl e, ap (contains seen) e ∙ new)
          | inr k ↦ (inr (forth' k).0, ground (arith, (forth' k).1))
        ],
        λ h. elim h.0 [
          | inl e ↦ inl e
          | inr k ↦ elim (Bool-cases (id == x)) [
            | inl same ↦ inl (ground (arith, same))
            | inr other ↦ inr (back' (k, ground (arith, other, h.1)))
          ]
        ],
      )
    ]

All-of_mem : (P : Uuid → Type 0) (xs : List Uuid) → ((y : Uuid) → y ∈ xs → P y) → All P xs
All-of_mem P [] h = tt
All-of_mem P (x ∷ xs) h = (h x (inl refl), All-of_mem P xs (λ y k. h y (inr k)))

first_seen-AllDifferent : (seen ids : List Uuid) → AllDifferent (first_seen seen ids)
unfolding first_seen
first_seen-AllDifferent seen [] = tt
first_seen-AllDifferent seen (id ∷ ids) = elim (Bool-cases (contains seen id)) [
  | inl again ↦ rw again (first_seen-AllDifferent seen ids)
  | inr new ↦ rw new (
    All-of_mem (λ y. id ≢ y) (first_seen (id ∷ seen) ids)
        (λ y h same. ground (arith, ((first_seen-keeps (id ∷ seen) ids y).0 h).1)),
    first_seen-AllDifferent (id ∷ seen) ids,
  )
]

-- The mentions of a message are those that were asked for, all of them, each once.
pub normalize_mention_ids_once :
    (ids : List Uuid)
    → AllDifferent (normalize_mention_ids ids)
      × ((x : Uuid) → x ∈ normalize_mention_ids ids ↔ x ∈ ids)
unfolding normalize_mention_ids
normalize_mention_ids_once ids = (
  first_seen-AllDifferent [] ids,
  λ x. let (forth, back) = first_seen-keeps [] ids x in (λ h. (forth h).0, λ h. back (h, refl)),
)
