-- ===== src/Phase0/RingBuffer/Topics.antt =====
-- Which topics are the system's.
use text.Mathlib.Text.{starts_with}
use census_konantgit_sys_p2p.Prelude.{String, ◌≡◌, ◌||◌, true, str_eq, arith, subst, eq_iff, refl}
use census_konantgit_sys_p2p.Phase0.RingBuffer.{is_system_topic}
use census_konantgit_sys_p2p.Dict.{member}

-- A text that equals one with the prefix has it.
has_prefix :
    (s t : String) → starts_with s "_" ≡ true → str_eq s t ≡ true → starts_with t "_" ≡ true
has_prefix s t h e = subst (λ x. starts_with x "_" ≡ true) ((eq_iff s t).0 e) h

-- The set of system topics adds only `agent:echo` to the rule of the leading underscore.
is_system_topic_lem :
    (topic : String) → is_system_topic topic ≡ (starts_with topic "_" || str_eq "agent:echo" topic)
unfolding is_system_topic member
is_system_topic_lem topic = ground (
  arith,
  has_prefix "_dht" topic refl,
  has_prefix "_raft" topic refl,
  has_prefix "_ping" topic refl,
  has_prefix "_heartbeat" topic refl,
  has_prefix "_discovery" topic refl,
)
