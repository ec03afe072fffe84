-- ===== src/Phase0/Kademlia/Bucket.antt =====
-- One bucket: at most three contacts, one for an identifier.
use census_konantgit_sys_p2p.Prelude.{
  ◌∷◌, [], List, ◌++◌, ℕ, ◌≡◌, true, if◌then◌else◌, Bool-cases, ◌||◌, false, ◌==◌, length, arith,
  ◌⊎◌, ◌+◌, refl, inl, inr, ◌≤◌, All, length-append, Bool, ◌<◌, All-append, leb, String, ◌∙◌, subst,
  ltb, sym, ltb→lt,
}
use census_konantgit_sys_p2p.Phase0.Kademlia.{
  Contact, has_node, remove_node, seen_again, bucket_failure, bucket_size, evict, bucket_add,
  max_failures, new_contact,
}

abbrev pub IsDistinct : List Contact → Type 0
IsDistinct [] = Unit
IsDistinct (c ∷ cs) = (has_node c.node_id cs ≡ false) × IsDistinct cs

has_node-append :
    (id : ℕ) (cs ds : List Contact) → has_node id (cs ++ ds) ≡ (has_node id cs || has_node id ds)
unfolding has_node
has_node-append id [] ds = refl
has_node-append id (c ∷ cs) ds = ground (arith, has_node-append id cs ds)

has_node-remove_node :
    (id j : ℕ) (cs : List Contact)
    → has_node j (remove_node id cs) ≡ (if id == j then false else has_node j cs)
unfolding has_node remove_node
has_node-remove_node id j [] = ground arith
has_node-remove_node id j (c ∷ cs) = ground (arith, has_node-remove_node id j cs)

-- What `seen_again` gives: nothing, or one contact of the identifier.
seen_again-cases :
    (id now : ℕ) (cs : List Contact)
    → ((has_node id cs ≡ false) × (seen_again id now cs ≡ []))
      ⊎ ((c : Contact) × (has_node id cs ≡ true)
          × (seen_again id now cs ≡ c ∷ [])
          × (c.node_id ≡ id))
unfolding has_node seen_again
seen_again-cases id now [] = inl (refl, refl)
seen_again-cases id now (c ∷ cs) = elim (Bool-cases (c.node_id == id)) [
  | inl same ↦ rw same (inr (record c { last_seen = now }, refl, refl, ground arith))
  | inr differ ↦ rw differ (seen_again-cases id now cs)
]

length-remove_le : (id : ℕ) (cs : List Contact) → length (remove_node id cs) ≤ length cs
unfolding remove_node
length-remove_le id [] = omega arith
length-remove_le id (c ∷ cs) = ground (arith, length-remove_le id cs)

length-remove_node :
    (id : ℕ) (cs : List Contact)
    → has_node id cs ≡ true
    → length (remove_node id cs) + 1 ≤ length cs
unfolding has_node remove_node
length-remove_node id [] h = absurd (ground arith)
length-remove_node id (c ∷ cs) h = elim (Bool-cases (c.node_id == id)) [
  | inl same ↦ rw same (omega (arith, length-remove_le id cs))
  | inr differ ↦ rw differ (omega (arith, length-remove_node id cs (ground (arith, h))))
]

IsDistinct-remove_node :
    (id : ℕ) (cs : List Contact) → IsDistinct cs → IsDistinct (remove_node id cs)
unfolding remove_node
IsDistinct-remove_node id [] h = tt
IsDistinct-remove_node id (c ∷ cs) h = elim (Bool-cases (c.node_id == id)) [
  | inl same ↦ rw same (IsDistinct-remove_node id cs h.1)
  | inr differ ↦ rw differ (
    rw (has_node-remove_node id c.node_id cs) (ground (arith, h.0)),
    IsDistinct-remove_node id cs h.1,
  )
]

-- A contact that is not there may come last.
IsDistinct-append :
    (cs : List Contact) (c : Contact)
    → IsDistinct cs
    → has_node c.node_id cs ≡ false
    → IsDistinct (cs ++ c ∷ [])
unfolding has_node
IsDistinct-append [] c h new = (refl, tt)
IsDistinct-append (d ∷ cs) c h new =
    let fresh : has_node d.node_id (c ∷ []) ≡ false = ground arith in
    (
      rw (has_node-append d.node_id cs (c ∷ [])) (ground (arith, h.0, fresh)),
      IsDistinct-append cs c h.1 (ground arith),
    )

has_node-bucket_failure :
    (id j : ℕ) (cs : List Contact) → has_node j (bucket_failure id cs) ≡ has_node j cs
unfolding has_node bucket_failure
has_node-bucket_failure id j [] = refl
has_node-bucket_failure id j (c ∷ cs) = ground (arith, has_node-bucket_failure id j cs)

length-bucket_failure : (id : ℕ) (cs : List Contact) → length (bucket_failure id cs) ≡ length cs
unfolding bucket_failure
length-bucket_failure id [] = refl
length-bucket_failure id (c ∷ cs) = ground (arith, length-bucket_failure id cs)

IsDistinct-bucket_failure :
    (id : ℕ) (cs : List Contact) → IsDistinct cs → IsDistinct (bucket_failure id cs)
unfolding bucket_failure
IsDistinct-bucket_failure id [] h = tt
IsDistinct-bucket_failure id (c ∷ cs) h = elim (Bool-cases (c.node_id == id)) [
  | inl same ↦ rw same h
  | inr differ ↦
      rw differ (has_node-bucket_failure id c.node_id cs ∙ h.0, IsDistinct-bucket_failure id cs h.1)
]

module _ (Q : ℕ → Type 0) where
  abbrev pub Placed : List Contact → Type 0
  Placed = All (λ c. Q c.node_id)

  Placed-remove_node : (id : ℕ) (cs : List Contact) → Placed cs → Placed (remove_node id cs)
  unfolding remove_node
  Placed-remove_node id [] h = tt
  Placed-remove_node id (c ∷ cs) h = elim (Bool-cases (c.node_id == id)) [
    | inl same ↦ rw same (Placed-remove_node id cs h.1)
    | inr differ ↦ rw differ (h.0, Placed-remove_node id cs h.1)
  ]

  -- A bucket within its size, with one contact for an identifier, all of them where they belong.
  pub record IsBucket (cs : List Contact) : Type 0 where
    pub small : length cs ≤ bucket_size
    pub distinct : IsDistinct cs
    pub placed : Placed cs

  -- What `bucket_add` leaves: a bucket, which has the contact if the answer says so.
  pub record Added (id : ℕ) (x : Bool × List Contact) : Type 0 where
    pub bucket : IsBucket x.1
    pub answer : has_node id x.1 ≡ x.0

  seen-Added :
      (id now : ℕ) (cs : List Contact)
      → IsBucket cs
      → Q id
      → has_node id cs ≡ true
      → Added id (true, remove_node id cs ++ seen_again id now cs)
  unfolding has_node
  seen-Added id now cs b q there = elim (seen_again-cases id now cs) [
    | inl (absent, _) ↦ absurd (ground (arith, absent, there))
    | inr (c, _, one, same) ↦
        let fewer = length-remove_node id cs there in
        let size = length-append (remove_node id cs) (c ∷ []) in
        let gone : has_node c.node_id (remove_node id cs) ≡ false =
          has_node-remove_node id c.node_id cs ∙ ground (arith, same) in
        rw one (record {
          bucket = record {
            small = omega (arith, fewer, size, b.small);
            distinct =
                IsDistinct-append (remove_node id cs) c (IsDistinct-remove_node id cs b.distinct)
                  gone;
            placed =
                All-append (λ x. Q x.node_id) (remove_node id cs) (c ∷ [])
                  (Placed-remove_node id cs b.placed) (subst Q (sym same) q, tt);
          };
          answer = rw (has_node-append id (remove_node id cs) (c ∷ [])) (ground (arith, same));
        })
  ]

  new-Added :
      (new : Contact) (cs : List Contact)
      → length cs < bucket_size
      → IsDistinct cs
      → Placed cs
      → Q new.node_id
      → has_node new.node_id cs ≡ false
      → Added new.node_id (true, cs ++ new ∷ [])
  unfolding has_node
  new-Added new cs room distinct placed q absent =
      let size = length-append cs (new ∷ []) in
      record {
        bucket = record {
          small = omega (arith, size, room);
          distinct = IsDistinct-append cs new distinct absent;
          placed = All-append (λ x. Q x.node_id) cs (new ∷ []) placed (q, tt);
        };
        answer = rw (has_node-append new.node_id cs (new ∷ [])) (ground arith);
      }

  evict-Added :
      (new : Contact) (cs : List Contact)
      → IsBucket cs
      → Q new.node_id
      → has_node new.node_id cs ≡ false
      → Added new.node_id (evict new cs)
  unfolding evict has_node
  evict-Added new [] b q absent = record { bucket = b; answer = refl }
  evict-Added new (oldest ∷ rest) b q absent =
      elim (Bool-cases (leb max_failures oldest.failures)) [
        | inl failed ↦ rw failed (
            new-Added new rest (omega (arith, b.small)) b.distinct.1 b.placed.1 q
              (ground (arith, absent)))
        | inr good ↦ rw good (record { bucket = b; answer = absent })
      ]

  pub bucket_add-Added :
      (id : ℕ) (addr pubkey : String) (now : ℕ) (cs : List Contact)
      → IsBucket cs
      → Q id
      → Added id (bucket_add id addr pubkey now cs)
  unfolding bucket_add
  bucket_add-Added id addr pubkey now cs b q = elim (Bool-cases (has_node id cs)) [
    | inl there ↦ rw there (seen-Added id now cs b q there)
    | inr absent ↦
        let new = new_contact id addr pubkey now in
        elim (Bool-cases (ltb (length cs) bucket_size)) [
          | inl room ↦
              rw (absent, room)
                (new-Added new cs (ltb→lt (length cs) bucket_size room) b.distinct b.placed q
                  absent)
          | inr full ↦ rw (absent, full) (evict-Added new cs b q absent)
        ]
  ]

  Placed-bucket_failure : (id : ℕ) (cs : List Contact) → Placed cs → Placed (bucket_failure id cs)
  unfolding bucket_failure
  Placed-bucket_failure id [] h = tt
  Placed-bucket_failure id (c ∷ cs) h = elim (Bool-cases (c.node_id == id)) [
    | inl same ↦ rw same h
    | inr differ ↦ rw differ (h.0, Placed-bucket_failure id cs h.1)
  ]

  pub bucket_failure-IsBucket :
      (id : ℕ) (cs : List Contact) → IsBucket cs → IsBucket (bucket_failure id cs)
  bucket_failure-IsBucket id cs b = record {
    small = omega (arith, length-bucket_failure id cs, b.small);
    distinct = IsDistinct-bucket_failure id cs b.distinct;
    placed = Placed-bucket_failure id cs b.placed;
  }
