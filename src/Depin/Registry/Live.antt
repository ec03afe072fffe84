-- ===== src/Depin/Registry/Live.antt =====
-- Which devices count as present: registering, the pulse, and the time to live.
use census_konantgit_sys_p2p.Prelude.{
  ◌∷◌, [], ℕ, Option, String, ◌≡◌, some, if◌then◌else◌, str_eq, Option-cases, none, leb, inl, inr,
  ◌-◌, ◌∙◌, Bool-cases, refl, false, ap, arith, eq_iff, subst, ◌≤◌, sym, some-injective, true,
}
use census_konantgit_sys_p2p.Depin.Registry.{
  Device, DeviceRegistry, Info, get, register, is_live, active, heartbeat, list_all, unregister,
}
use census_konantgit_sys_p2p.Dict.{
  lookup, lookup-insert, erase, insert, Dict, lookup-erase, values, contains,
}

module _ {V : Type 0} where
  -- Every key has one entry.
  abbrev pub IsKeyed : Dict V → Type 0
  IsKeyed [] = Unit
  IsKeyed ((k, v) ∷ d) = (lookup k d ≡ none) × IsKeyed d

  insert-IsKeyed : (k : String) (v : V) (d : Dict V) → IsKeyed d → IsKeyed (insert k v d)
  unfolding insert lookup
  insert-IsKeyed k v [] h = (refl, tt)
  insert-IsKeyed k v ((j, w) ∷ d) h = elim (Bool-cases (str_eq j k)) [
    | inl same ↦ rw same h
    | inr differ ↦
        let swapped : str_eq k j ≡ false = ground (arith, eq_iff j k, eq_iff k j) in
        rw differ (rw (lookup-insert k j v d) (rw swapped h.0), insert-IsKeyed k v d h.1)
  ]

  lookup-erase-none : (k j : String) (d : Dict V) → lookup j d ≡ none → lookup j (erase k d) ≡ none
  lookup-erase-none k j d h = rw (lookup-erase k j d) (ground (arith, h))

  erase-IsKeyed : (k : String) (d : Dict V) → IsKeyed d → IsKeyed (erase k d)
  unfolding erase
  erase-IsKeyed k [] h = tt
  erase-IsKeyed k ((j, w) ∷ d) h = elim (Bool-cases (str_eq j k)) [
    | inl same ↦ rw same (erase-IsKeyed k d h.1)
    | inr differ ↦ rw differ (lookup-erase-none k j d h.0, erase-IsKeyed k d h.1)
  ]

  erase_of_none : (k : String) (d : Dict V) → lookup k d ≡ none → erase k d ≡ d
  unfolding erase lookup
  erase_of_none k [] h = refl
  erase_of_none k ((j, w) ∷ d) h = elim (Bool-cases (str_eq j k)) [
    | inl same ↦ absurd (ground arith)
    | inr differ ↦ rw differ (ap (◌∷◌ (j, w)) (erase_of_none k d (ground arith)))
  ]

module _ {I : Type 0} where
  -- A device within its time to live.
  abbrev pub live : ℕ → ℕ → Option (Device I) → Option (Device I)
  live ttl_sec now none = none
  live ttl_sec now (some d) = if is_live ttl_sec now d then some d else none

  get_lem :
      (id : String) (now : ℕ) (r : DeviceRegistry I)
      → (get id now r).0 ≡ live r.ttl_sec now (lookup id r.devices)
  unfolding get
  get_lem id now r = elim (Option-cases (lookup id r.devices)) [
    | inl e ↦ rw (e, get) refl
    | inr (d, e) ↦ elim (Bool-cases (is_live r.ttl_sec now d)) [
      | inl l ↦ rw (e, get) (rw l refl)
      | inr l ↦ rw (e, get) (rw l refl)
    ]
  ]

  -- After a registration, `get` gives the new record for its identifier, until the time to live has passed since, and for every other identifier what it gave before.
  get-register :
      (id j : String) (info : Info I) (t now : ℕ) (r : DeviceRegistry I)
      → (get j now (register id info t r).1).0 ≡ (
          if str_eq id j
          then (if leb (now - t) r.ttl_sec
              then some (record { info = info; device_id = id; last_seen = t })
              else none)
          else (get j now r).0)
  unfolding register is_live
  get-register id j info t now r =
      get_lem j now (register id info t r).1
      ∙ rw (lookup-insert id j _ r.devices, get_lem j now r)
          (elim (Bool-cases (str_eq id j)) [ inl e ↦ rw e refl | inr e ↦ rw e refl ])

  -- Removing an expired device leaves the list of the active ones.
  active-erase :
      (ttl_sec now : ℕ) (id : String) (ds : Dict (Device I)) (d : Device I)
      → IsKeyed ds
      → lookup id ds ≡ some d
      → is_live ttl_sec now d ≡ false
      → active ttl_sec now (values (erase id ds)) ≡ active ttl_sec now (values ds)
  unfolding active erase lookup
  active-erase ttl_sec now id [] d keyed e expired = refl
  active-erase ttl_sec now id ((j, x) ∷ ds) d keyed e expired = elim (Bool-cases (str_eq j id)) [
    | inl same ↦
        let found = subst (λ b. (if b then some x else lookup id ds) ≡ some d) same e in
        let x_expired : is_live ttl_sec now x ≡ false =
          subst (λ y. is_live ttl_sec now y ≡ false) (sym (some-injective x d found)) expired in
        let none_left = subst (λ k. lookup k ds ≡ none) ((eq_iff j id).0 same) keyed.0 in
        rw (same, erase_of_none id ds none_left) (rw x_expired refl)
    | inr differ ↦
        let found = subst (λ b. (if b then some x else lookup id ds) ≡ some d) differ e in
        rw differ (
          ap (λ l. if is_live ttl_sec now x then x ∷ l else l)
            (active-erase ttl_sec now id ds d keyed.1 found expired))
  ]

  is_live_later :
      (ttl_sec now later : ℕ) (d : Device I)
      → now ≤ later
      → is_live ttl_sec now d ≡ false
      → is_live ttl_sec later d ≡ false
  unfolding is_live
  is_live_later ttl_sec now later d h e = ground arith

  -- `get` removes an expired device from the registry, and that changes no list of the active devices at the same time or later, in a registry with one entry for a key; it keeps such a registry one.
  list_all-get :
      (id : String) (now later : ℕ) (r : DeviceRegistry I)
      → IsKeyed r.devices
      → now ≤ later
      → (list_all later (get id now r).1 ≡ list_all later r) × IsKeyed (get id now r).1.devices
  unfolding get list_all unregister
  list_all-get id now later r keyed h = elim (Option-cases (lookup id r.devices)) [
    | inl e ↦ rw (e, get) (refl, keyed)
    | inr (d, e) ↦ elim (Bool-cases (is_live r.ttl_sec now d)) [
      | inl l ↦ rw (e, get) (rw l (refl, keyed))
      | inr l ↦
          rw (e, get)
            (rw l (
              active-erase r.ttl_sec later id r.devices d keyed e
                  (is_live_later r.ttl_sec now later d h l),
              erase-IsKeyed id r.devices keyed,
            ))
    ]
  ]

  abbrev pub with_time : ℕ → Option (Device I) → Option (Device I)
  with_time t none = none
  with_time t (some d) = some (record d { last_seen = t })

  -- A pulse counts for a device that the registry still has, expired or not: `get` then gives its record with the new time, until the time to live has passed since; other devices are as before; and the answer says whether there was such a device.
  get-heartbeat :
      (id j : String) (t now : ℕ) (r : DeviceRegistry I)
      → let (known, r') = heartbeat id t r in
        (known ≡ contains id r.devices)
        × ((get j now r').0 ≡ (
            if str_eq id j
            then live r.ttl_sec now (with_time t (lookup id r.devices))
            else (get j now r).0))
  unfolding heartbeat contains
  get-heartbeat id j t now r = elim (Option-cases (lookup id r.devices)) [
    | inl e ↦
        let none_there : str_eq id j ≡ true → (get j now r).0 ≡ none = λ same.
          get_lem j now r
          ∙ ap (live r.ttl_sec now)
              (subst (λ k. lookup k r.devices ≡ none) ((eq_iff id j).0 same) e) in
        rw (e, heartbeat, contains)
          (
            refl,
            elim (Bool-cases (str_eq id j)) [
              | inl same ↦ rw same (none_there same)
              | inr differ ↦ rw differ refl
            ],
          )
    | inr (d, e) ↦
        let pulsed = record d { last_seen = t } in
        let r' = record r { devices = insert id pulsed r.devices } in
        let found : (get j now r').0
            ≡ live r.ttl_sec now (if str_eq id j then some pulsed else lookup j r.devices) =
          get_lem j now r' ∙ ap (live r.ttl_sec now) (lookup-insert id j pulsed r.devices) in
        rw (e, heartbeat, contains)
          (
            refl,
            rw found (elim (Bool-cases (str_eq id j)) [
              | inl same ↦ rw same refl
              | inr differ ↦ rw differ (sym (get_lem j now r))
            ]),
          )
  ]
