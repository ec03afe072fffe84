-- ===== src/Phase0/Kademlia/Table.antt =====
-- The routing table: every bucket stays a bucket, and its contacts belong to it.
use census_konantgit_sys_p2p.Prelude.{
  ◌∷◌, [], List, zero, suc, ℕ, Bool, arith, String, min, ◌≡◌, ◌+◌, subst, ◌-◌, true, refl, sym,
  get_elem?, ◌∙◌, some, some-injective,
}
use census_konantgit_sys_p2p.Phase0.Kademlia.{
  Contact, RoutingTable, at_bucket, empty_buckets, add_node, mark_failure, leading_zeros,
  bucket_for, id_bits, bucket_add, bucket_failure, new_table,
}
use census_konantgit_sys_p2p.Phase0.Kademlia.Bucket.{
  IsBucket, bucket_add-Added, bucket_failure-IsBucket,
}

-- What changes a routing table.
pub data Change : Type 0 where
  heard_of : (node_id : ℕ) (addr pubkey : String) (now : ℕ) → Change
  failed : (node_id : ℕ) → Change

abbrev pub change : Change → RoutingTable → RoutingTable
change (heard_of id addr pubkey now) t = (add_node id addr pubkey now t).1
change (failed id) t = mark_failure id t

abbrev pub changes : List Change → RoutingTable → RoutingTable
changes [] t = t
changes (c ∷ cs) t = changes cs (change c t)

-- The bucket of an identifier, for a node of the identifier `own`.
abbrev pub place : ℕ → ℕ → ℕ
place own id = min (leading_zeros own id) (id_bits - 1)

AllBuckets : ℕ → ℕ → List (List Contact) → Type 0
AllBuckets own i [] = Unit
AllBuckets own i (b ∷ bs) = IsBucket (λ id. place own id ≡ i) b × AllBuckets own (i + 1) bs

empty-AllBuckets : (own i n : ℕ) → AllBuckets own i (empty_buckets n)
unfolding AllBuckets empty_buckets
empty-AllBuckets own i zero = tt
empty-AllBuckets own i (suc n) =
    (record { small = omega arith; distinct = tt; placed = tt }, empty-AllBuckets own (i + 1) n)

at_bucket-AllBuckets :
    (own i k : ℕ) (f : List Contact → Bool × List Contact) (bs : List (List Contact))
    → ((b : List Contact)
        → IsBucket (λ id. place own id ≡ i + k) b
        → IsBucket (λ id. place own id ≡ i + k) (f b).1)
    → AllBuckets own i bs
    → AllBuckets own i (at_bucket k f bs).1
unfolding AllBuckets at_bucket
at_bucket-AllBuckets own i k f [] keeps h = tt
at_bucket-AllBuckets own i zero f (b ∷ bs) keeps h = (
  subst (λ n. IsBucket (λ id. place own id ≡ n) (f b).1) (omega arith)
      (keeps b (subst (λ n. IsBucket (λ id. place own id ≡ n) b) (omega arith) h.0)),
  h.1,
)
at_bucket-AllBuckets own i (suc k) f (b ∷ bs) keeps h = (
  h.0,
  at_bucket-AllBuckets own (i + 1) k f bs
      (subst
        (λ n.
          (c : List Contact)
          → IsBucket (λ id. place own id ≡ n) c
          → IsBucket (λ id. place own id ≡ n) (f c).1)
        (omega arith) keeps)
      h.1,
)

change-AllBuckets :
    (c : Change) (t : RoutingTable)
    → AllBuckets t.own_id 0 t.buckets
    → ((change c t).own_id ≡ t.own_id) × AllBuckets t.own_id 0 (change c t).buckets
unfolding add_node mark_failure bucket_for
change-AllBuckets (heard_of id addr pubkey now) t h = (
  refl,
  at_bucket-AllBuckets t.own_id 0 (place t.own_id id) (bucket_add id addr pubkey now) t.buckets
      (λ b bucket. (bucket_add-Added _ id addr pubkey now b bucket (omega arith)).bucket) h,
)
change-AllBuckets (failed id) t h = (
  refl,
  at_bucket-AllBuckets t.own_id 0 (place t.own_id id) (λ b. (true, bucket_failure id b)) t.buckets
      (λ b bucket. bucket_failure-IsBucket _ id b bucket) h,
)

changes-AllBuckets :
    (cs : List Change) (t : RoutingTable)
    → AllBuckets t.own_id 0 t.buckets
    → ((changes cs t).own_id ≡ t.own_id) × AllBuckets t.own_id 0 (changes cs t).buckets
changes-AllBuckets [] t h = (refl, h)
changes-AllBuckets (c ∷ cs) t h =
    let step = change-AllBuckets c t h in
    let later =
      changes-AllBuckets cs (change c t)
        (subst (λ n. AllBuckets n 0 (change c t).buckets) (sym step.0) step.1) in
    (later.0 ∙ step.0, subst (λ n. AllBuckets n 0 (changes cs (change c t)).buckets) step.0 later.1)

AllBuckets-get :
    (own i k : ℕ) (bs : List (List Contact)) (b : List Contact)
    → AllBuckets own i bs
    → get_elem? bs k ≡ some b
    → IsBucket (λ id. place own id ≡ i + k) b
unfolding AllBuckets
AllBuckets-get own i k [] b h e = absurd (cc)
AllBuckets-get own i zero (c ∷ bs) b h e =
    subst (IsBucket (λ id. place own id ≡ i + 0)) (some-injective c b e)
      (subst (λ n. IsBucket (λ id. place own id ≡ n) c) (omega arith) h.0)
AllBuckets-get own i (suc k) (c ∷ bs) b h e =
    subst (λ n. IsBucket (λ id. place own id ≡ n) b) (omega arith)
      (AllBuckets-get own (i + 1) k bs b h.1 e)

-- Whatever a node hears of and whatever fails, from an empty routing table on: every bucket has at most three contacts, no identifier is in it twice, and each of its contacts has an identifier that `_bucket_for` sends there.
pub changes-IsBucket :
    (cs : List Change) (own : ℕ) (own_pubkey : String) (i : ℕ) (b : List Contact)
    → get_elem? (changes cs (new_table own own_pubkey)).buckets i ≡ some b
    → IsBucket (λ id. place own id ≡ i) b
unfolding new_table
changes-IsBucket cs own own_pubkey i b e =
    let t = new_table own own_pubkey in
    let all = (changes-AllBuckets cs t (empty-AllBuckets own 0 id_bits)).1 in
    subst (λ n. IsBucket (λ id. place own id ≡ n) b) (omega arith)
      (AllBuckets-get own 0 i (changes cs t).buckets b all e)
