-- ===== src/Routing/Inbound.antt =====
-- modules/routing/RoutingModule.ts: what an agent has after `provision`.
use aries_framework_javascri.Prelude.{
  String, true, Option, none, some, ◌∙◌, [], ◌∷◌, ◌≡◌, refl, ap, sym, subst, arith, ◌⊎◌, inl, inr,
  Bool-cases, is_empty,
}
use aries_framework_javascri.Exec.{ok, ok-run, returned, bind-ok, or_throw-ok, require-ok}
use aries_framework_javascri.Agent.Config.{AgentConfig, get_routing_keys, establish_inbound}
use aries_framework_javascri.Connections.Record.{ConnectionRecord, complete}
use aries_framework_javascri.Connections.Service.{ConnectionDeps, Connecting}
use aries_framework_javascri.Connections.Waiting.{same_state-complete}
use aries_framework_javascri.Routing.Provisioning.{
  ProvisioningRecord, find_provisioning, create_provisioning,
}
use aries_framework_javascri.Routing.Module.{
  Mediation, FreshProvisioning, MediatorConfiguration, provision, connect_to_mediator,
  known_or_connected,
}

routing_keys-inbound :
    (config : AgentConfig) (connection : ConnectionRecord) (key : String)
    → (is_empty key ≡ true)
      ⊎ (get_routing_keys
            (establish_inbound (record { verkey = key; connection = connection }) config)
          ≡ key ∷ [])
unfolding get_routing_keys establish_inbound
routing_keys-inbound config connection key = elim (Bool-cases (is_empty key)) [
  | inl e ↦ inl e
  | inr e ↦ inr (rw e refl)
]

module _ {W J : Type 0} (deps : ConnectionDeps W J) (config : AgentConfig) (mediation : Mediation W)
    (fresh : FreshProvisioning) (mediator : MediatorConfiguration) where
  -- The record made with a new mediator has the key of the configuration.
  connect_to_mediator-verkey :
      (s : Connecting W) {r : ProvisioningRecord} {s' : Connecting W}
      → connect_to_mediator deps config mediation fresh mediator s ≡ (ok r, s')
      → r.mediator_public_verkey ≡ mediator.verkey
  unfolding connect_to_mediator create_provisioning
  connect_to_mediator-verkey s {r} {s'} e =
      let (_, _, more) = bind-ok _ _ s e in
      let (_, _, more) = bind-ok _ _ _ more in
      let (requested, _, more) = bind-ok _ _ _ more in
      let (_, _, more) = bind-ok _ _ _ more in
      let (_, _, more) = bind-ok _ _ _ more in
      let (_, _, more) = bind-ok _ _ _ more in
      let (_, _, more) = bind-ok _ _ _ more in
      let (_, _, more) = bind-ok _ _ _ more in
      let create =
        create_provisioning mediation.provisioning fresh.provisioning requested.1.id
          mediator.verkey in
      let (_, _, last) = bind-ok _ _ _ (ok-run create _ (ap (λ p. p.0) more)) in
      ap (λ x. x.mediator_public_verkey) (sym (returned last))

  known_or_connected-key :
      (found : Option ProvisioningRecord) (s : Connecting W) {r : ProvisioningRecord}
      → (known_or_connected deps config mediation fresh mediator found s).0 ≡ ok r
      → (found ≡ some r) ⊎ ((found ≡ none) × (r.mediator_public_verkey ≡ mediator.verkey))
  unfolding known_or_connected
  known_or_connected-key none s e = inr (
    refl,
    connect_to_mediator-verkey s
        (ok-run (connect_to_mediator deps config mediation fresh mediator) s e),
  )
  known_or_connected-key (some old) s {r} e = let same : old ≡ r = cc in inl (ap some same)

  -- Whenever provision returns: if provisioning was stored, the mediator's key is that of the stored
  -- record, and if none was, it is the key of the mediator configuration. The connection is Complete,
  -- it is the inbound connection of the new configuration, with this key, and a new invitation or
  -- record will name this one routing key, unless it is empty.
  pub provision-inbound :
      (s : Connecting W) {connection : ConnectionRecord} {config' : AgentConfig} {s' : Connecting W}
      → provision deps config mediation fresh mediator s ≡ (ok (connection, config'), s')
      → (key : String) × (((r : ProvisioningRecord) × ((find_provisioning mediation.provisioning
                s.store).0
              ≡ ok (some r))
            × (r.mediator_public_verkey ≡ key))
          ⊎ (((find_provisioning mediation.provisioning s.store).0 ≡ ok none)
              × (mediator.verkey ≡ key)))
        × (connection.state ≡ complete)
        × (config'.inbound_connection ≡ some (record { verkey = key; connection = connection }))
        × ((is_empty key ≡ true) ⊎ (get_routing_keys config' ≡ key ∷ []))
  unfolding provision establish_inbound
  provision-inbound s {connection} {config'} e =
      let (found, looked, more) = bind-ok _ _ s e in
      let (r, got, more) = bind-ok _ _ _ more in
      let (known, _, more) = bind-ok _ _ _ more in
      let (c, _, more) = or_throw-ok _ _ _ _ more in
      let (state, more) = require-ok _ _ _ _ more in
      let key = r.mediator_public_verkey in
      let after = establish_inbound (record { verkey = key; connection = c }) config in
      let same : c ≡ connection = cc (ap (λ p. p.0) more) in
      let now : after ≡ config' = cc (ap (λ p. p.0) more) in
      let keys = routing_keys-inbound config c key in
      (
        key,
        elim (known_or_connected-key found _ got) [
          | inl stored ↦ inl (r, looked ∙ ap ok stored, refl)
          | inr (none_stored, made) ↦ inr (looked ∙ ap ok none_stored, sym made)
        ],
        subst (λ x. x.state ≡ complete) same (same_state-complete c.state (ground arith)),
        subst (λ x. config'.inbound_connection ≡ some (record { verkey = key; connection = x }))
            same (ap (λ x. x.inbound_connection) (sym now)),
        subst (λ x. (is_empty key ≡ true) ⊎ (get_routing_keys x ≡ key ∷ [])) now keys,
      )
