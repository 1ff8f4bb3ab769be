-- ===== src/Tests/NamespaceStructs.antt =====
-- The structs of TemporalNamespace and its parts as the fields of a variable.
use provider_temporal.Base.{ℕ, suc, ◌++◌, refl, [], ◌∷◌}
use provider_temporal.Api.Copies.Namespace.{
  TemporalNamespaceParametersStruct, TemporalNamespaceObservationStruct,
  TemporalNamespaceSpecStruct, TemporalNamespaceStatusStruct, TemporalNamespaceStruct,
  NamespaceVariables,
}
use provider_temporal.Tests.Memory.{
  Fields, text_of, address_of, number_of, no_fields, structs, arrays, foreign,
}

-- The parameters, from the text `t`, the address `a` and the number `n` on.
abbrev pub parameters_of : Fields → ℕ → ℕ → ℕ → TemporalNamespaceParametersStruct
parameters_of fs t a n = record {
  name = text_of fs t;
  description = address_of fs a;
  owner_email = address_of fs (suc a);
  workflow_execution_retention_days = number_of fs n;
  data_map = address_of fs (suc (suc a));
  history_archival_state = text_of fs (suc t);
  history_archival_uri = address_of fs (suc (suc (suc a)));
  visibility_archival_state = text_of fs (suc (suc t));
  visibility_archival_uri = address_of fs (suc (suc (suc (suc a))));
}

abbrev pub observation_of : Fields → ℕ → ℕ → ℕ → TemporalNamespaceObservationStruct
observation_of fs t a n =
    let p = parameters_of fs t a n in
    record {
      id = text_of fs (suc (suc (suc t)));
      name = p.name;
      description = p.description;
      owner_email = p.owner_email;
      workflow_execution_retention_days = p.workflow_execution_retention_days;
      data_map = p.data_map;
      history_archival_state = p.history_archival_state;
      history_archival_uri = p.history_archival_uri;
      visibility_archival_state = p.visibility_archival_state;
      visibility_archival_uri = p.visibility_archival_uri;
      state = text_of fs (suc (suc (suc (suc t))));
    }

abbrev pub parameters_fields : TemporalNamespaceParametersStruct → Fields
parameters_fields p = record {
  texts = p.name ∷ p.history_archival_state ∷ p.visibility_archival_state ∷ [];
  addresses =
      p.description ∷ p.owner_email ∷ p.data_map ∷ p.history_archival_uri
      ∷ p.visibility_archival_uri ∷ [];
  numbers = p.workflow_execution_retention_days ∷ [];
  conditions = [];
}

abbrev pub observation_fields : TemporalNamespaceObservationStruct → Fields
observation_fields o = record {
  texts = o.name ∷ o.history_archival_state ∷ o.visibility_archival_state ∷ o.id ∷ o.state ∷ [];
  addresses =
      o.description ∷ o.owner_email ∷ o.data_map ∷ o.history_archival_uri
      ∷ o.visibility_archival_uri ∷ [];
  numbers = o.workflow_execution_retention_days ∷ [];
  conditions = [];
}

abbrev pub spec_fields : TemporalNamespaceSpecStruct foreign → Fields
spec_fields s =
    let p = parameters_fields s.for_provider in
    record p { addresses = s.provider_reference ∷ p.addresses }

abbrev pub spec_of : Fields → TemporalNamespaceSpecStruct foreign
spec_of fs = record {
  resource_spec = tt;
  provider_reference = address_of fs 0;
  for_provider = parameters_of fs 0 1 0;
}

abbrev pub status_fields : TemporalNamespaceStatusStruct foreign → Fields
status_fields s = record (observation_fields s.at_provider) { conditions = s.resource_status }

abbrev pub status_of : Fields → TemporalNamespaceStatusStruct foreign
status_of fs = record { resource_status = fs.conditions; at_provider = observation_of fs 0 0 0 }

abbrev pub namespace_fields : TemporalNamespaceStruct foreign → Fields
namespace_fields n =
    let p = spec_fields n.spec in
    let o = status_fields n.status in
    record {
      texts = p.texts ++ n.object_meta ∷ o.texts;
      addresses = p.addresses ++ o.addresses;
      numbers = p.numbers ++ o.numbers;
      conditions = o.conditions;
    }

abbrev pub namespace_of : Fields → TemporalNamespaceStruct foreign
namespace_of fs = record {
  type_meta = tt;
  object_meta = text_of fs 3;
  spec = spec_of fs;
  status = record { resource_status = fs.conditions; at_provider = observation_of fs 4 6 1 };
}

abbrev pub variables : NamespaceVariables foreign
variables = record {
  parameters = structs parameters_fields (λ fs. parameters_of fs 0 0 0) (λ a. refl);
  observations = structs observation_fields (λ fs. observation_of fs 0 0 0) (λ a. refl);
  specs = structs spec_fields spec_of (λ a. refl);
  statuses = structs status_fields status_of (λ a. refl);
  namespaces = structs namespace_fields namespace_of (λ a. refl);
  arrays = arrays namespace_fields namespace_of (λ a. refl);
  lists =
      structs (λ l. record no_fields { addresses = l.items ∷ [] })
        (λ fs. record { type_meta = tt; list_meta = tt; items = address_of fs 0 }) (λ a. refl);
}
