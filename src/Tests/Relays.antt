-- ===== src/Tests/Relays.antt =====
-- Instances for the relay, relay/server.py and relay/redundancy.py.
use census_konantgit_sys_p2p.Prelude.{
  ◌∷◌, [], List, ℕ, ◌≡◌, ◌≢◌, str_ne, true, false, Option, some, none, String, refl, zero, suc,
}
use census_konantgit_sys_p2p.Dict.{lookup, get_or}
use census_konantgit_sys_p2p.Relay.Server.{
  RelayServer, AgentSession, new_server, accept, handle, wait_register, welcome, leave, e2e_init,
}
use census_konantgit_sys_p2p.Relay.Server.Limits.{
  Open, stay, onward, let_in, turned_away, IsCounted, Run-within_limit,
}
use census_konantgit_sys_p2p.Relay.Server.Delivery.{IsAnswered, handle-IsAnswered}
use census_konantgit_sys_p2p.Relay.Server.Names.{session, register_twice}
use census_konantgit_sys_p2p.Relay.Redundancy.{Relay, MultiRelay, new_client}

abbrev fresh : RelayServer
fresh = new_server 1000 10 1 1048576

-- The first connection of an address is let in, the second is turned away.
let_in_first : (accept "10.0.0.1" fresh).0 ≡ true
unfolding accept new_server get_or lookup
let_in_first = refl

turned_away_second : (accept "10.0.0.1" (accept "10.0.0.1" fresh).1).0 ≡ false
unfolding accept new_server get_or lookup
turned_away_second = refl

abbrev only : List Open
only = record { ip = "10.0.0.1"; agent = none } ∷ []

abbrev full : RelayServer
full = (accept "10.0.0.1" (accept "10.0.0.1" fresh).1).1

Run-within_limit_example : IsCounted only full
Run-within_limit_example = Run-within_limit 1000 10 1 1048576 only full (
    onward (onward stay (let_in "10.0.0.1" let_in_first))
      (turned_away "10.0.0.1" turned_away_second))

abbrev alice : AgentSession
alice = session 1 "aa" []

abbrev serving : RelayServer
serving = record fresh { agents = ("aa", alice) ∷ ("bb", session 2 "bb" []) ∷ [] }

handle-IsAnswered_example :
    IsAnswered "aa" serving (handle (e2e_init (some "bb") (some "00")) 5 alice serving).1
unfolding session
handle-IsAnswered_example = handle-IsAnswered (e2e_init (some "bb") (some "00")) 5 alice serving

abbrev aa : String
aa = "aa"

aa_full : aa ≢ ""
aa_full = str_ne aa "" refl

register_twice_example :
    let first = session 1 "aa" ("chat" ∷ []) in
    let (signed, s1) = wait_register 1 true "aa" ("chat" ∷ []) fresh in
    let s2 = (wait_register 2 true "aa" [] (welcome first s1)).1 in
    (signed ≡ some first)
    × (lookup "aa" s2.agents ≡ some (session 2 "aa" []))
    × (lookup "aa" (leave (some first) "10.0.0.1" s2).agents ≡ none)
register_twice_example = register_twice 1 2 "aa" "10.0.0.1" ("chat" ∷ []) [] fresh aa_full

-- The first relay of two is down; the client is its number.
abbrev two_relays : MultiRelay ℕ
two_relays = new_client (("relay-1", 8899) ∷ ("relay-2", 8899) ∷ [])

abbrev second_up : ℕ → Relay → Option ℕ
second_up zero r = none
second_up (suc n) r = some 7
