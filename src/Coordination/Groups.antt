-- ===== src/Coordination/Groups.antt =====
-- `class GroupCoordinator` of coordination/consumer_group.py. Here the groups are kept by value: the
-- program hands out references to them, and a client's `subscribe` is `update_consumer`. A Python set
-- of members is a list without repetitions, whose order says nothing.
pub mod Members
pub mod Broadcast
use census_konantgit_sys_p2p.Prelude.{
  [], List, String, Option, Bool, ℕ, if◌then◌else◌, ◌∷◌, map, false, length, str_eq, ◌++◌, true,
  ◌||◌, none, some,
}
use census_konantgit_sys_p2p.Dict.{member, Dict, contains, get_or, lookup, insert, erase}
use census_konantgit_sys_p2p.Coordination.ConsumerGroup.{on_message, new_group, ConsumerGroup}
use census_konantgit_sys_p2p.Outcome.{Done, returned, raised}

abbrev pub Consumers : Type 0 → Type 0 → Type 0
Consumers P W = Dict (ConsumerGroup P W)

pub record GroupCoordinator (P W : Type 0) : Type 0 where
  pub groups : Dict (Consumers P W)
  pub membership : Dict (List String)

-- `set.add`
unfoldable pub add_member : String → List String → List String
unfolding member
add_member x ys = if member x ys then ys else ys ++ x ∷ []

-- `set.discard`
unfoldable pub discard : String → List String → List String
discard x [] = []
discard x (y ∷ ys) = let rest = discard x ys in if str_eq y x then rest else y ∷ rest

abbrev pub is_empty : List String → Bool
is_empty [] = true
is_empty (y ∷ ys) = false

-- The members after a consumer has left; a group with none left loses its entry.
unfoldable pub leave_membership : String → String → Dict (List String) → Dict (List String)
unfolding discard
leave_membership gid cid ms = elim (lookup gid ms) [
  | none ↦ ms
  | some members ↦
      let left = discard cid members in if is_empty left then erase gid ms else insert gid left ms
]

module _ {P W : Type 0} where
  unfoldable pub new_coordinator : GroupCoordinator P W
  new_coordinator = record { groups = []; membership = [] }

  -- The dictionary of the group with the consumer in it: the one that is there, or a new one.
  unfoldable pub with_consumer : String → String → Consumers P W → Consumers P W
  unfolding contains new_group
  with_consumer gid cid consumers =
      if contains cid consumers then consumers else insert cid (new_group gid cid []) consumers

  unfoldable pub join_group : String → String → GroupCoordinator P W → GroupCoordinator P W
  unfolding add_member with_consumer get_or
  join_group gid cid c = record {
    membership = insert gid (add_member cid (get_or gid [] c.membership)) c.membership;
    groups = insert gid (with_consumer gid cid (get_or gid [] c.groups)) c.groups;
  }

  unfoldable pub get_consumer : String → String → GroupCoordinator P W → Option (ConsumerGroup P W)
  unfolding get_or
  get_consumer gid cid c = lookup cid (get_or gid [] c.groups)

  unfoldable pub leave_group : String → String → GroupCoordinator P W → Bool × GroupCoordinator P W
  unfolding leave_membership
  leave_group gid cid c =
      let ms = leave_membership gid cid c.membership in
      elim (lookup gid c.groups) [
        | none ↦ (false, record c { membership = ms })
        | some consumers ↦
            if contains cid consumers
            then (
              true,
              record { groups = insert gid (erase cid consumers) c.groups; membership = ms },
            )
            else (false, record c { membership = ms })
      ]

  unfoldable pub member_count : String → GroupCoordinator P W → ℕ
  unfolding get_or
  member_count gid c = length (get_or gid [] c.membership)

  -- What a client does to a consumer that `join_group` has returned to it.
  unfoldable pub update_consumer :
      String
      → String
      → (ConsumerGroup P W → ConsumerGroup P W)
      → GroupCoordinator P W
      → GroupCoordinator P W
  update_consumer gid cid f c = elim (lookup gid c.groups) [
    | none ↦ c
    | some consumers ↦ elim (lookup cid consumers) [
      | none ↦ c
      | some g ↦ record c { groups = insert gid (insert cid (f g) consumers) c.groups }
    ]
  ]

  -- The loop of `broadcast` over the consumers: an exception of one ends it.
  unfoldable pub broadcast_each : String → ℕ → P → Consumers P W → W → Done × Consumers P W × W
  unfolding on_message
  broadcast_each topic seq payload [] w = (returned tt, [], w)
  broadcast_each topic seq payload ((cid, g) ∷ rest) w =
      let (r, g', w') = on_message topic seq payload g w in
      elim r [
        | returned _ ↦
            let (r', rest', w'') = broadcast_each topic seq payload rest w' in
            (r', (cid, g') ∷ rest', w'')
        | raised e ↦ (raised e, (cid, g') ∷ rest, w')
      ]

  unfoldable pub broadcast :
      String → String → ℕ → P → GroupCoordinator P W → W → Done × GroupCoordinator P W × W
  unfolding broadcast_each
  broadcast gid topic seq payload c w = elim (lookup gid c.groups) [
    | none ↦ (returned tt, c, w)
    | some consumers ↦
        let (r, consumers', w') = broadcast_each topic seq payload consumers w in
        (r, record c { groups = insert gid consumers' c.groups }, w')
  ]

-- An entry of `list_groups`.
pub record GroupInfo : Type 0 where
  pub group_id : String
  pub members : List String
  pub consumer_count : ℕ

abbrev dict_size : {V : Type 0} → Dict V → ℕ
dict_size d = length d

unfoldable pub list_groups : {P W : Type 0} → GroupCoordinator P W → List GroupInfo
unfolding get_or
list_groups c =
    map
      (λ e. record {
        group_id = e.0;
        members = e.1;
        consumer_count = dict_size (get_or e.0 [] c.groups);
      })
      c.membership
