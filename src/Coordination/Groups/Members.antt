-- ===== src/Coordination/Groups/Members.antt =====
-- Joining and leaving: who is in a group, by both of the coordinator's tables.
use census_konantgit_sys_p2p.Coordination.Groups.{
  with_consumer, add_member, leave_membership, discard, Consumers, is_empty, leave_group,
  GroupCoordinator, join_group, get_consumer,
}
use census_konantgit_sys_p2p.Dict.{
  member, contains, get_or, Dict, lookup, contains-insert, lookup-erase, lookup-insert,
  get_or_of_none, get_or-erase, get_or-insert, get_or_of_lookup, erase,
}
use census_konantgit_sys_p2p.Prelude.{
  String, List, ◌≡◌, ◌++◌, [], str_eq, if◌then◌else◌, true, ◌∷◌, false, ◌||◌, some, ◌&&◌,
  Bool-cases, refl, arith, Option-cases, inl, eq_iff, inr, none,
}
use census_konantgit_sys_p2p.Coordination.ConsumerGroup.{new_group}

member-append :
    (x y : String) (ys : List String) → member x (ys ++ y ∷ []) ≡ (member x ys || str_eq y x)
unfolding member
member-append x y [] = ground arith
member-append x y (z ∷ ys) = ground (arith, member-append x y ys)

member-add_member :
    (x y : String) (ys : List String) → member x (add_member y ys) ≡ (str_eq y x || member x ys)
unfolding add_member
member-add_member x y ys = elim (Bool-cases (member y ys)) [
  | inl e ↦ rw e (ground (arith, eq_iff y x))
  | inr e ↦ rw e (ground (arith, member-append x y ys))
]

member-discard :
    (x y : String) (ys : List String)
    → member x (discard y ys) ≡ (if str_eq y x then false else member x ys)
unfolding member discard
member-discard x y [] = ground arith
member-discard x y (z ∷ ys) =
    ground (arith, member-discard x y ys, eq_iff y x, eq_iff z x, eq_iff z y)

member-nil_of_empty : (x : String) (ys : List String) → is_empty ys ≡ true → member x ys ≡ false
unfolding member
member-nil_of_empty x [] h = refl
member-nil_of_empty x (y ∷ ys) h = cc

-- The members that `membership` has for a group after a consumer has left.
leave_membership-member :
    (gid cid h i : String) (ms : Dict (List String))
    → member i (get_or h [] (leave_membership gid cid ms))
      ≡ (if str_eq gid h && str_eq cid i then false else member i (get_or h [] ms))
unfolding leave_membership member
leave_membership-member gid cid h i ms = elim (Option-cases (lookup gid ms)) [
  | inl e ↦ rw (e, leave_membership) (ground (arith, eq_iff gid h, get_or_of_none gid [] ms e))
  | inr (ys, e) ↦
      rw (e, leave_membership)
        (elim (Bool-cases (is_empty (discard cid ys))) [
          | inl nobody ↦ rw nobody (
              rw (get_or-erase gid h [] ms) (
                ground (
                  arith,
                  eq_iff gid h,
                  get_or_of_lookup gid ys [] ms e,
                  member-discard i cid ys,
                  member-nil_of_empty i (discard cid ys) nobody,
                )))
          | inr some_left ↦ rw some_left (
              rw (get_or-insert gid h (discard cid ys) [] ms) (
                ground
                  (arith, eq_iff gid h, get_or_of_lookup gid ys [] ms e, member-discard i cid ys)))
        ])
]

module _ {P W : Type 0} where
  contains-with_consumer :
      (gid cid i : String) (cs : Consumers P W)
      → contains i (with_consumer gid cid cs) ≡ (str_eq cid i || contains i cs)
  unfolding with_consumer
  contains-with_consumer gid cid i cs = elim (Bool-cases (contains cid cs)) [
    | inl e ↦ rw e (ground (arith, eq_iff cid i))
    | inr e ↦ rw e (ground (arith, contains-insert cid i (new_group gid cid []) cs))
  ]

  lookup-with_consumer :
      (gid cid i : String) (cs : Consumers P W)
      → lookup i (with_consumer gid cid cs)
        ≡ (if str_eq cid i then some (get_or i (new_group gid cid []) cs) else lookup i cs)
  unfolding with_consumer contains get_or
  lookup-with_consumer gid cid i cs = elim (Option-cases (lookup cid cs)) [
    | inl e ↦
        rw (e, contains)
          (ground
            (arith, lookup-insert cid i (new_group {P = P} {W = W} gid cid []) cs, eq_iff cid i))
    | inr (g, e) ↦ rw (e, contains) (ground (arith, eq_iff cid i))
  ]

  lookup_of_contains :
      (i : String) (cs : Consumers P W) → contains i cs ≡ false → lookup i cs ≡ none
  unfolding contains
  lookup_of_contains i cs h = elim (Option-cases (lookup i cs)) [
    | inl e ↦ e
    | inr (g, e) ↦ absurd (cc (rw (e, contains) at h))
  ]

  -- The two tables agree on who is in which group.
  pub record IsConsistent (c : GroupCoordinator P W) : Type 0 where
    pub agree :
        (gid cid : String)
        → member cid (get_or gid [] c.membership) ≡ contains cid (get_or gid [] c.groups)

  join_group-IsConsistent :
      (gid cid : String) (c : GroupCoordinator P W)
      → IsConsistent c
      → IsConsistent (join_group gid cid c)
  unfolding join_group
  join_group-IsConsistent gid cid c h = record {
    agree = λ g i.
        rw (get_or-insert, get_or-insert)
          (ground (
            arith,
            eq_iff gid g,
            h.agree g i,
            h.agree gid i,
            member-add_member i cid (get_or gid [] c.membership),
            contains-with_consumer gid cid i (get_or gid [] c.groups),
          ));
  }

  leave_group-groups :
      (gid cid g i : String) (c : GroupCoordinator P W)
      → lookup i (get_or g [] (leave_group gid cid c).1.groups)
        ≡ (if str_eq gid g && str_eq cid i then none else lookup i (get_or g [] c.groups))
  unfolding leave_group lookup
  leave_group-groups gid cid g i c = elim (Option-cases (lookup gid c.groups)) [
    | inl e ↦ rw (e, leave_group) (ground (arith, eq_iff gid g, get_or_of_none gid [] c.groups e))
    | inr (cs, e) ↦
        rw (e, leave_group)
          (elim (Bool-cases (contains cid cs)) [
            | inl there ↦ rw there (
                rw (get_or-insert gid g (erase cid cs) [] c.groups) (
                  ground (
                    arith,
                    eq_iff gid g,
                    get_or_of_lookup gid cs [] c.groups e,
                    lookup-erase cid i cs,
                  )))
            | inr absent ↦ rw absent (
                ground (
                  arith,
                  eq_iff gid g,
                  eq_iff cid i,
                  get_or_of_lookup gid cs [] c.groups e,
                  lookup_of_contains cid cs absent,
                ))
          ])
  ]

  leave_group-membership :
      (gid cid : String) (c : GroupCoordinator P W)
      → (leave_group gid cid c).1.membership ≡ leave_membership gid cid c.membership
  unfolding leave_group
  leave_group-membership gid cid c = elim (Option-cases (lookup gid c.groups)) [
    | inl e ↦ rw (e, leave_group)
    | inr (cs, e) ↦
        rw (e, leave_group)
          (elim (Bool-cases (contains cid cs)) [ inl there ↦ rw there | inr absent ↦ rw absent ])
  ]

  leave_group-result :
      (gid cid : String) (c : GroupCoordinator P W)
      → (leave_group gid cid c).0 ≡ contains cid (get_or gid [] c.groups)
  unfolding leave_group
  leave_group-result gid cid c = elim (Option-cases (lookup gid c.groups)) [
    | inl e ↦
        rw (e, leave_group) (rw (get_or_of_none gid [] c.groups e) (unfold contains lookup in refl))
    | inr (cs, e) ↦
        rw (e, leave_group)
          (rw (get_or_of_lookup gid cs [] c.groups e)
            (elim (Bool-cases (contains cid cs)) [ inl there ↦ rw there | inr absent ↦ rw absent ]))
  ]

  leave_group-IsConsistent :
      (gid cid : String) (c : GroupCoordinator P W)
      → IsConsistent c
      → IsConsistent (leave_group gid cid c).1
  unfolding contains
  leave_group-IsConsistent gid cid c h = record {
    agree = λ g i. rw (leave_group-membership gid cid c) (
        rw leave_membership-member
          (rw (leave_group-groups gid cid g i c, contains) (ground (arith, h.agree g i))));
  }

  -- Joining and leaving keep the two tables of the coordinator, the members and the consumers, in agreement; a leave answers whether the consumer was there.
  membership-IsConsistent :
      (gid cid : String) (c : GroupCoordinator P W)
      → IsConsistent c
      → IsConsistent (join_group gid cid c)
        × IsConsistent (leave_group gid cid c).1
        × ((leave_group gid cid c).0 ≡ contains cid (get_or gid [] c.groups))
  membership-IsConsistent gid cid c h = (
    join_group-IsConsistent gid cid c h,
    leave_group-IsConsistent gid cid c h,
    leave_group-result gid cid c,
  )

  -- After a join the consumer is the one that was there before, or a new one without offsets or subscriptions, and every other consumer is as before; after a leave it is gone, and every other is as before.
  get_consumer-join-leave :
      (gid cid g i : String) (c : GroupCoordinator P W)
      → (get_consumer g i (join_group gid cid c) ≡ (
          if str_eq gid g && str_eq cid i
          then some (get_or cid (new_group gid cid []) (get_or gid [] c.groups))
          else get_consumer g i c))
        × (get_consumer g i (leave_group gid cid c).1
            ≡ (if str_eq gid g && str_eq cid i then none else get_consumer g i c))
  unfolding get_consumer join_group
  get_consumer-join-leave gid cid g i c = (
    rw (get_or-insert gid g (with_consumer gid cid (get_or gid [] c.groups)) [] c.groups) (
        ground (
          arith,
          eq_iff gid g,
          eq_iff cid i,
          lookup-with_consumer gid cid i (get_or gid [] c.groups),
        )),
    leave_group-groups gid cid g i c,
  )
