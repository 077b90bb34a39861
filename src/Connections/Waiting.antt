-- ===== src/Connections/Waiting.antt =====
-- modules/connections/ConnectionsModule.ts: `returnWhenIsConnected` resolves.
use aries_framework_javascri.Prelude.{
  String, true, Option, none, some, List, [], ◌∷◌, any, ◌≡◌, refl, arith, eq_iff, Bool-cases, inl,
  inr,
}
use aries_framework_javascri.Exec.{ok, err, Result, ◌>>=◌}
use aries_framework_javascri.Agent.Config.{AgentConfig}
use aries_framework_javascri.Connections.Record.{
  ConnectionRecord, ConnectionState, init, invited, requested, responded, complete, same_state,
}
use aries_framework_javascri.Connections.Service.{ConnectionDeps, Connecting, ConnectionEvent, find}
use aries_framework_javascri.Connections.Module.{
  is_connected, first_connected, connected_or_later, return_when_is_connected,
}

pub same_state-complete :
    (state : ConnectionState) → same_state state complete ≡ true → state ≡ complete
same_state-complete init e = absurd (cc e)
same_state-complete invited e = absurd (cc e)
same_state-complete requested e = absurd (cc e)
same_state-complete responded e = absurd (cc e)
same_state-complete complete e = refl

module _ (id : String) where
  -- A record that is this connection, complete.
  abbrev pub Connected : Option ConnectionRecord → Type 0
  Connected o = (c : ConnectionRecord) × (o ≡ some c) × (c.id ≡ id) × (c.state ≡ complete)

  is_connected-Connected : (c : ConnectionRecord) → is_connected id c ≡ true → Connected (some c)
  is_connected-Connected c e =
      (c, refl, (eq_iff c.id id).0 (ground arith), same_state-complete c.state (ground arith))

  first_connected-Connected :
      (events : List ConnectionEvent)
      → any (λ event. is_connected id event.changed) events ≡ true
      → Connected (first_connected id events)
  unfolding first_connected
  first_connected-Connected [] e = absurd (cc e)
  first_connected-Connected (event ∷ events) e = elim (Bool-cases (is_connected id event.changed)) [
    | inl now ↦ rw now (is_connected-Connected event.changed now)
    | inr not_yet ↦ rw not_yet (first_connected-Connected events (ground arith))
  ]

  connected_or_later-Connected :
      (found : Option ConnectionRecord) (events : List ConnectionEvent)
      → any (λ event. is_connected id event.changed) events ≡ true
      → Connected (connected_or_later id events found)
  unfolding connected_or_later
  connected_or_later-Connected none events e = first_connected-Connected events e
  connected_or_later-Connected (some c) events e = elim (Bool-cases (is_connected id c)) [
    | inl now ↦ rw now (is_connected-Connected c now)
    | inr not_yet ↦ rw not_yet (first_connected-Connected events e)
  ]

module _ {W J : Type 0} (deps : ConnectionDeps W J) (config : AgentConfig) (id : String) where
  find-answered :
      (s : Connecting W) (r : Result ConnectionRecord)
      → (deps.repo.find id s.store).0 ≡ r
      → (found : Option ConnectionRecord) × ((find deps config id s).0 ≡ ok found)
  unfolding find ◌>>=◌
  find-answered s (ok c) e = (some c, rw e refl)
  find-answered s (err x) e = (none, rw e refl)

  -- Whatever the wallet answers to the first lookup: once an event announces the connection as
  -- Complete, the promise is resolved, with a record of this id that is Complete.
  pub return_when_is_connected-resolves :
      (later : List ConnectionEvent) (s : Connecting W)
      → any (λ event. is_connected id event.changed) later ≡ true
      → (c : ConnectionRecord) × ((return_when_is_connected deps config id later s).0 ≡ ok (some c))
        × (c.id ≡ id)
        × (c.state ≡ complete)
  unfolding return_when_is_connected ◌>>=◌
  return_when_is_connected-resolves later s e =
      let (o, found) = find-answered s (deps.repo.find id s.store).0 refl in
      let (c, same, its, done) = connected_or_later-Connected id o later e in
      (c, rw (found, same) refl, its, done)
