-- ===== src/Channel/Listing.antt =====
-- What `list_for_space` of the in-memory store returns, and in which order.
use opencord_server.Base.{nat_eqb, List, some, Uuid, nat_eq, ◌≡◌, arith, ◌↔◌, filter}
use opencord_server.Base.Map.{get, values}
use opencord_server.Base.Member.{
  ◌∈◌, mem-filter_iff, mem-sort_by_iff, mem-values, get_of_mem-values, Sorted, IsOrder,
  sort_by-Sorted,
}
use opencord_server.Base.Order.{text_leb_total, text_leb_trans}
use opencord_server.Channel.{Channel}
use opencord_server.Channel.Memory.{position_leb, list_for_space_body, empty_state}
use opencord_server.Channel.Commands.{Command, run_all}
use opencord_server.Channel.Index.{run_all-IsIndexed}

position_leb-IsOrder : IsOrder position_leb
unfolding position_leb
position_leb-IsOrder = record {
  total = λ x y h. ground (arith, text_leb_total x.name y.name);
  trans = λ x y z h k. ground (arith, text_leb_trans x.name y.name z.name);
}

-- After any calls of the service on an empty in-memory store, `list_for_space` returns the channels
-- that are stored with that space, all of them and no other, by position and, at one position, by
-- name.
pub list_for_space_exact :
    (cs : List Command) (space_id : Uuid) (c : Channel)
    → let s = run_all cs empty_state in
      (c ∈ list_for_space_body space_id s
        ↔ ((get s.channels_by_id c.id ≡ some c) × (c.space_id ≡ space_id)))
      × Sorted position_leb (list_for_space_body space_id s)
unfolding list_for_space_body
list_for_space_exact cs space_id c =
    let s = run_all cs empty_state in
    let inv = run_all-IsIndexed cs in
    let kept = mem-filter_iff (λ x. nat_eqb x.space_id space_id) c (values s.channels_by_id) in
    let placed =
      mem-sort_by_iff position_leb c
        (filter (λ x. nat_eqb x.space_id space_id) (values s.channels_by_id)) in
    (
      (
        λ m.
            let (among, here) = kept.0 (placed.0 m) in
            let (k, found) = get_of_mem-values s.channels_by_id c inv.distinct among in
            ground (arith, found, here, inv.own_id k c found),
        λ h. placed.1 (kept.1 (mem-values s.channels_by_id c.id c h.0, ground (arith, h.1))),
      ),
      sort_by-Sorted position_leb position_leb-IsOrder _,
    )
