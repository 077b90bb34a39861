-- ===== src/Tests/Mediator.antt =====
-- An agent that has provisioned its mediator.
use aries_framework_javascri.Prelude.{
  String, true, none, some, List, [], ◌∷◌, ◌≡◌, refl, ◌⊎◌, is_empty,
}
use aries_framework_javascri.Exec.{ok, err, type_error, ◌>>=◌}
use aries_framework_javascri.Storage.{Repository, no_tags}
use aries_framework_javascri.Agent.Config.{AgentConfig, get_routing_keys, establish_inbound}
use aries_framework_javascri.Connections.Record.{ConnectionRecord, complete}
use aries_framework_javascri.Connections.Service.{find}
use aries_framework_javascri.Routing.Provisioning.{
  ProvisioningRecord, find_provisioning, unique_provisioning_id,
}
use aries_framework_javascri.Routing.Module.{
  Mediation, FreshProvisioning, MediatorConfiguration, provision,
}
use aries_framework_javascri.Routing.Inbound.{provision-inbound}
use aries_framework_javascri.Tests.Connections.{connection, fresh, start, deps, config}

abbrev provisioned : ProvisioningRecord
provisioned = record {
  id = unique_provisioning_id;
  created_at = 3;
  mediator_connection_id = "c1";
  mediator_public_verkey = "mediator_key";
  tags = no_tags;
}

abbrev provisioning : Repository ProvisioningRecord (List ConnectionRecord)
provisioning = record {
  save = λ r s. (ok tt, s);
  update = λ r s. (ok tt, s);
  delete = λ r s. (ok tt, s);
  find = λ id s. (ok provisioned, s);
  find_all = λ s. (ok (provisioned ∷ []), s);
  find_by_query = λ q s. (ok (provisioned ∷ []), s);
}

abbrev mediation : Mediation (List ConnectionRecord)
mediation = record {
  provisioning = provisioning;
  from_url = λ url. err type_error;
  sender = record { send = λ out s. (ok tt, s) };
  send_and_receive = λ out s. (err type_error, s);
}

abbrev mediator : MediatorConfiguration
mediator = record { verkey = "mediator_key"; invitation_url = "https://m?c_i="; alias = none }

abbrev fresh_all : FreshProvisioning
fresh_all = record { invitation = fresh; request = fresh; provisioning = fresh }

abbrev at_mediator : ConnectionRecord
at_mediator = connection "c1" complete

abbrev mediated : AgentConfig
mediated = record config {
  inbound_connection = some (record { verkey = "mediator_key"; connection = at_mediator });
}

provision_run :
    provision deps config mediation fresh_all mediator (start at_mediator)
    ≡ (ok (at_mediator, mediated), start at_mediator)
unfolding provision find_provisioning find establish_inbound ◌>>=◌
provision_run = refl

provision-inbound_example :
    (key : String) × (((r : ProvisioningRecord) × ((find_provisioning mediation.provisioning
            (start at_mediator).store).0
          ≡ ok (some r))
        × (r.mediator_public_verkey ≡ key))
      ⊎ (((find_provisioning mediation.provisioning (start at_mediator).store).0 ≡ ok none)
          × (mediator.verkey ≡ key)))
    × (at_mediator.state ≡ complete)
    × (mediated.inbound_connection ≡ some (record { verkey = key; connection = at_mediator }))
    × ((is_empty key ≡ true) ⊎ (get_routing_keys mediated ≡ key ∷ []))
provision-inbound_example =
    provision-inbound deps config mediation fresh_all mediator (start at_mediator) provision_run
