-- ===== src/Tests/Delivery.antt =====
-- Runs and instances for ordered delivery, coordination/consumer_group.py.
use census_konantgit_sys_p2p.Prelude.{
  ◌∷◌, [], List, ℕ, ◌++◌, ◌*◌, ◌<◌, ◌≡◌, ◌≤◌, none, refl, some, arith, ◌-◌,
}
use census_konantgit_sys_p2p.Coordination.ConsumerGroup.{
  Message, get_offset, ConsumerGroup, on_messages, new_group, subscribe, Callback,
}
use census_konantgit_sys_p2p.Dict.{member, lookup, get_or, insert, contains}
use census_konantgit_sys_p2p.Coordination.Groups.{GroupCoordinator}
use census_konantgit_sys_p2p.Coordination.Groups.Members.{IsConsistent}
use census_konantgit_sys_p2p.Outcome.{returned}
use census_konantgit_sys_p2p.Coordination.ConsumerGroup.Complete.{on_messages_complete}
use census_konantgit_sys_p2p.Coordination.ConsumerGroup.Waiting.{Occurs}
use census_konantgit_sys_p2p.Coordination.ConsumerGroup.Lane.{deliver_all}
use census_konantgit_sys_p2p.Coordination.ConsumerGroup.Ordering.{
  IsIdle, payloads, on_messages_in_order,
}

-- A subscriber that records what it is handed.
abbrev recorder : Callback ℕ (List ℕ)
recorder p w = w ++ p ∷ []

abbrev idle_group : ConsumerGroup ℕ (List ℕ)
idle_group = subscribe "prices" recorder (new_group "analysts" "forecaster" [])

abbrev tens : ℕ → ℕ
tens n = n * 10

abbrev shuffled : List (Message ℕ)
shuffled =
    record { seq = 3; payload = 30 }
    ∷ record { seq = 1; payload = 10 }
    ∷ record { seq = 2; payload = 20 }
    ∷ []

-- 3 waits for 1 and 2; a second copy of 1 is old.
on_messages-shuffled :
    (on_messages "prices" (shuffled ++ record { seq = 1; payload = 10 } ∷ []) idle_group []).2
    ≡ 10 ∷ 20 ∷ 30 ∷ []
unfolding on_messages subscribe new_group insert lookup get_or contains
on_messages-shuffled = refl

idle_group-IsIdle : IsIdle "prices" idle_group
unfolding subscribe new_group insert lookup contains
idle_group-IsIdle = record { subscribed = refl }

idle_group_offset : get_offset "prices" idle_group ≡ 0
unfolding subscribe new_group get_or
idle_group_offset = refl

numbers_come : (s : ℕ) → get_offset "prices" idle_group < s → s ≤ 3 → Occurs s shuffled
numbers_come s lo hi = ground (arith, idle_group_offset)

on_messages_complete_example :
    let (r, g', w') = on_messages "prices" shuffled idle_group [] in
    (r ≡ returned tt)
    × (get_offset "prices" g' ≡ 3)
    × (lookup "prices" g'.pending ≡ some [])
    × (w'
        ≡ deliver_all
            (get_or "prices" [] idle_group.topics)
            (payloads tens (get_offset "prices" idle_group) (3 - get_offset "prices" idle_group))
            [])
on_messages_complete_example =
    on_messages_complete tens "prices" 3 shuffled idle_group [] idle_group-IsIdle
      (omega (arith, idle_group_offset)) (refl, (refl, (refl, tt))) (omega arith) (omega arith)
      numbers_come

on_messages_in_order_example :
    let (r, g', w') = on_messages "prices" shuffled idle_group [] in
    (r ≡ returned tt)
    × (get_offset "prices" idle_group ≤ get_offset "prices" g')
    × (w'
        ≡ deliver_all
            (get_or "prices" [] idle_group.topics)
            (payloads tens
              (get_offset "prices" idle_group)
              (get_offset "prices" g' - get_offset "prices" idle_group))
            [])
on_messages_in_order_example =
    on_messages_in_order tens "prices" shuffled idle_group [] idle_group-IsIdle
      (refl, (refl, (refl, tt)))

-- The group `new_group` makes has no buffer: it has joined and not subscribed.
abbrev unsubscribed : ConsumerGroup ℕ (List ℕ)
unsubscribed = new_group "analysts" "late" []

unsubscribed_buffer : lookup "prices" unsubscribed.pending ≡ none
unfolding new_group lookup
unsubscribed_buffer = refl

unsubscribed_offset : get_offset "prices" unsubscribed ≡ 0
unfolding new_group get_or
unsubscribed_offset = refl

abbrev one_group : GroupCoordinator ℕ (List ℕ)
one_group = record {
  groups = ("cg:prices", ("forecaster", idle_group) ∷ []) ∷ [];
  membership = ("cg:prices", "forecaster" ∷ []) ∷ [];
}

one_group_lookup : lookup "cg:prices" one_group.groups ≡ some (("forecaster", idle_group) ∷ [])
unfolding lookup
one_group_lookup = refl

abbrev no_groups : GroupCoordinator ℕ (List ℕ)
no_groups = record { groups = []; membership = [] }

no_groups-IsConsistent : IsConsistent no_groups
unfolding get_or member contains
no_groups-IsConsistent = record { agree = λ gid cid. refl }
