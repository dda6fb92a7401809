-- ===== src/Mqtt/Lifecycle/Runs.antt =====
-- A handler of src/mqtt_server.cpp as a run of the steps of the server.
use mock_services.Base.{ℕ, zero, suc, ◌≡◌, Option, none, some, List, Text, text_key, ◌<◌, if_split}
use mock_services.Mqtt.Server.{
  Server, Control, again, leave, go_on, finish, packet_round, client_loop,
}
use mock_services.Base.Dict.{find}
use mock_services.Mqtt.Server.Table.{after}
use mock_services.Mqtt.Server.Loop.{pending, client_loop_ends}
use mock_services.Mqtt.Lifecycle.Steps.{packet, ended, Reach, here, next, Reach-trans}

module _ (peer : ℕ → List ℕ → List ℕ) where
  go_on-Reach :
      (r : Control) (s s' : Server) (rest : Server → Option Server)
      → Reach peer s (after r)
      → ((t : Server) → rest t ≡ some s' → Reach peer t s')
      → go_on r rest ≡ some s'
      → Reach peer s s'
  go_on-Reach (again t) s s' rest stepped later e = Reach-trans peer stepped (later t e)
  go_on-Reach (leave t) s s' rest stepped later e = let is : t ≡ s' = cc in rw is at stepped

  -- The rounds of a loop that ends are steps.
  client_loop-Reach :
      (rounds sock : ℕ) (id : Text) (s s' : Server)
      → client_loop peer rounds sock id s ≡ some s'
      → Reach peer s s'
  unfolding client_loop
  client_loop-Reach zero sock id s s' e = cc e
  client_loop-Reach (suc rounds) sock id s s' e =
      if_split (λ r. r ≡ some s' → Reach peer s s') s.running _ _
        (λ _.
          go_on-Reach (packet_round peer sock id s) s s' (λ t. client_loop peer rounds sock id t)
            (next here (packet s sock id)) (λ t. client_loop-Reach rounds sock id t s'))
        (λ _ h.
          let is : finish sock id s ≡ s' = cc in
          let last : Reach peer s (finish sock id s) = next here (ended s sock id) in rw is at last)
        e

  -- With more rounds than the socket still delivers bytes, the loop of a connection ends, what it
  -- did is a run of steps of the relation, and the table then holds no session of the client's
  -- identifier.
  pub client_loop_runs :
      (rounds sock : ℕ) (id : Text) (s : Server)
      → pending sock s < rounds
      → (s' : Server) × (client_loop peer rounds sock id s ≡ some s')
        × Reach peer s s'
        × (find id s'.sessions ≡ none)
  client_loop_runs rounds sock id s h =
      let (s', e, absent) = client_loop_ends peer rounds sock id s h in
      (s', e, client_loop-Reach rounds sock id s s' e, absent)
