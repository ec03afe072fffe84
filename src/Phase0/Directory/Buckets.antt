-- ===== src/Phase0/Directory/Buckets.antt =====
-- The buckets of phase0/dht.py: how many entries one has, which, and that a put value is got again.
use census_konantgit_sys_p2p.Prelude.{
  ◌∷◌, [], List, zero, suc, ℕ, String, Option, none, some, ◌≡◌, str_eq, inl, inr, Bool-cases,
  length, arith, refl, ◌+◌, get_elem?, ◌<◌, subst, some-injective,
}
use census_konantgit_sys_p2p.Phase0.Directory.{
  DhtStore, Placed, Value, new_store, bucket_index, bucket_put, bucket_get, at_bucket,
  put_in_bucket, handle_message, handle_messages, Request, put, get_value, put_agent, other_request,
  store, Profile, text_append, profile,
}
use census_konantgit_sys_p2p.Phase0.Directory.Entries.{
  IsBucket, put_in_bucket-IsBucket, empty_IsBucket, find_placed-put_in_bucket,
}

get_elem?-at_bucket :
    (i : ℕ) (f : List Placed → List Placed) (bs : List (List Placed))
    → i < length bs
    → (b : List Placed) × (get_elem? (at_bucket i f bs) i ≡ some (f b))
unfolding at_bucket
get_elem?-at_bucket i f [] h = absurd (omega (arith, h))
get_elem?-at_bucket zero f (b ∷ bs) h = (b, refl)
get_elem?-at_bucket (suc i) f (b ∷ bs) h = get_elem?-at_bucket i f bs (omega (arith, h))

module _ (hash32 : String → ℕ) where
  bucket_index-below : (key : String) → bucket_index hash32 key < 8
  unfolding bucket_index
  bucket_index-below key = omega arith

  -- What `_bucket_put` puts under a key, `_bucket_get` finds there.
  bucket_get-bucket_put :
      (key : String) (value : Value) (now : ℕ) (s : DhtStore)
      → length s.buckets ≡ 8
      → bucket_get hash32 key (bucket_put hash32 key value now s) ≡ some value
  unfolding bucket_get bucket_put
  bucket_get-bucket_put key value now s eight =
      let i = bucket_index hash32 key in
      let (b, e) =
        get_elem?-at_bucket i (put_in_bucket key value now) s.buckets
          (omega (arith, eight, bucket_index-below key)) in
      rw (e, bucket_get) (find_placed-put_in_bucket key value now b)

  abbrev pub Belongs : ℕ → String → Type 0
  Belongs i key = bucket_index hash32 key ≡ i

  AllBuckets : ℕ → List (List Placed) → Type 0
  AllBuckets i [] = Unit
  AllBuckets i (b ∷ bs) = IsBucket (Belongs i) b × AllBuckets (i + 1) bs

  at_bucket-AllBuckets :
      (i k : ℕ) (key : String) (value : Value) (now : ℕ) (bs : List (List Placed))
      → Belongs (i + k) key
      → AllBuckets i bs
      → AllBuckets i (at_bucket k (put_in_bucket key value now) bs)
  unfolding AllBuckets at_bucket
  at_bucket-AllBuckets i k key value now [] here h = tt
  at_bucket-AllBuckets i zero key value now (b ∷ bs) here h =
      (put_in_bucket-IsBucket (Belongs i) key value now b (omega (arith, here)) h.0, h.1)
  at_bucket-AllBuckets i (suc k) key value now (b ∷ bs) here h =
      (h.0, at_bucket-AllBuckets (i + 1) k key value now bs (omega (arith, here)) h.1)

  handle_message-AllBuckets :
      (r : Request) (sender : Option String) (now : ℕ) (s : DhtStore)
      → AllBuckets 0 s.buckets
      → AllBuckets 0 (handle_message hash32 r sender now s).1.buckets
  unfolding handle_message bucket_put store
  handle_message-AllBuckets (put key value ttl) sender now s h =
      at_bucket-AllBuckets 0 (bucket_index hash32 key) key value now s.buckets (omega arith) h
  handle_message-AllBuckets (get_value key) sender now s h = h
  handle_message-AllBuckets (put_agent p) sender now s h = agent_put p.agent_id p s h
    where
      agent_put :
          (id : Option String) (p : Profile) (s : DhtStore)
          → AllBuckets 0 s.buckets
          → AllBuckets 0
              (handle_message hash32
                (put_agent (record { agent_id = id; capabilities = p.capabilities }))
                sender
                now
                s).1.buckets
      agent_put none p s h = h
      agent_put (some id) p s h = elim (Bool-cases (str_eq id "")) [
        | inl e ↦ rw e h
        | inr e ↦
            let key = text_append "agent:" id in
            let value = profile (record { agent_id = some id; capabilities = p.capabilities }) in
            rw e (
              at_bucket-AllBuckets 0 (bucket_index hash32 key) key value now s.buckets (omega arith)
                h)
      ]
  handle_message-AllBuckets other_request sender now s h = h

  handle_messages-AllBuckets :
      (ms : List (Request × Option String × ℕ)) (s : DhtStore)
      → AllBuckets 0 s.buckets
      → AllBuckets 0 (handle_messages hash32 ms s).buckets
  unfolding handle_messages
  handle_messages-AllBuckets [] s h = h
  handle_messages-AllBuckets ((r, sender, now) ∷ rest) s h =
      handle_messages-AllBuckets rest (handle_message hash32 r sender now s).1
        (handle_message-AllBuckets r sender now s h)

  AllBuckets-get :
      (i k : ℕ) (bs : List (List Placed)) (b : List Placed)
      → AllBuckets i bs
      → get_elem? bs k ≡ some b
      → IsBucket (Belongs (i + k)) b
  unfolding AllBuckets
  AllBuckets-get i k [] b h e = absurd (cc)
  AllBuckets-get i zero (c ∷ bs) b h e =
      subst (IsBucket (Belongs (i + 0))) (some-injective c b e)
        (subst (λ n. IsBucket (Belongs n) c) (omega arith) h.0)
  AllBuckets-get i (suc k) (c ∷ bs) b h e =
      subst (λ n. IsBucket (Belongs n) b) (omega arith) (AllBuckets-get (i + 1) k bs b h.1 e)

  -- After any messages to a fresh store: every bucket has at most twenty entries, no key is in it twice, and each of its keys has a hash that `_bucket_index` sends there.
  pub handle_messages-IsBucket :
      (ms : List (Request × Option String × ℕ)) (node_id : String) (max_keys i : ℕ)
      (b : List Placed)
      → get_elem? (handle_messages hash32 ms (new_store node_id max_keys)).buckets i ≡ some b
      → IsBucket (Belongs i) b
  unfolding new_store AllBuckets
  handle_messages-IsBucket ms node_id max_keys i b e =
      let empty = empty_IsBucket in
      let all = handle_messages-AllBuckets ms (new_store node_id max_keys) (
        empty _,
        (empty _, (empty _, (empty _, (empty _, (empty _, (empty _, (empty _, tt))))))),
      ) in
      subst (λ n. IsBucket (Belongs n) b) (omega arith)
        (AllBuckets-get 0 i (handle_messages hash32 ms (new_store node_id max_keys)).buckets b all
          e)
