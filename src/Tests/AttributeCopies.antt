-- ===== src/Tests/AttributeCopies.antt =====
-- The theorem on deep copies of search attributes, for a list of one that names its namespace.
use provider_temporal.Base.{ℕ, zero, suc, refl, Option, none, some, [], ◌∷◌, arith}
use provider_temporal.Api.SearchAttribute.{SearchAttribute, SearchAttributeList}
use provider_temporal.Go.Memory.{Memory}
use provider_temporal.Go.Memory.Regions.{Separate, plain}
use provider_temporal.Go.Memory.Pointers.{Points}
use provider_temporal.Api.Copies.SearchAttribute.{
  SearchAttributeParametersStruct, SearchAttributeObservationStruct, SearchAttributeSpecStruct,
  SearchAttributeStatusStruct, SearchAttributeStruct, AttributeVariables, deep_copy_into_attribute,
  deep_copy_into_attribute_spec, deep_copy_into_attribute_status,
  deep_copy_into_attribute_parameters, deep_copy_into_attribute_observation,
  deep_copy_into_attribute_list, deep_copy_attribute_list,
}
use provider_temporal.Api.Copies.SearchAttribute.Laws.{
  attribute, attribute_list_pointer, deep_copy_attribute_list-Separate,
}
use provider_temporal.Tests.Connections.{kube}
use provider_temporal.Tests.Memory.{
  Fields, Cell, text_of, address_of, no_fields, structs, arrays, foreign,
}

abbrev parameters_of : Fields → SearchAttributeParametersStruct foreign
parameters_of fs = record {
  name = text_of fs 0;
  type = text_of fs 1;
  temporal_namespace_name = address_of fs 0;
  temporal_namespace_name_ref = address_of fs 1;
  temporal_namespace_name_selector = address_of fs 2;
}

abbrev parameters_fields : SearchAttributeParametersStruct foreign → Fields
parameters_fields p = record no_fields {
  texts = p.name ∷ p.type ∷ [];
  addresses =
      p.temporal_namespace_name ∷ p.temporal_namespace_name_ref ∷ p.temporal_namespace_name_selector
      ∷ [];
}

abbrev observation_of : Fields → SearchAttributeObservationStruct foreign
observation_of fs = record {
  name = text_of fs 2;
  type = text_of fs 3;
  temporal_namespace_name = text_of fs 4;
}

abbrev observation_fields : SearchAttributeObservationStruct foreign → Fields
observation_fields o = record no_fields {
  texts = "" ∷ "" ∷ o.name ∷ o.type ∷ o.temporal_namespace_name ∷ [];
}

abbrev spec_of : Fields → SearchAttributeSpecStruct foreign
spec_of fs = record {
  resource_spec = tt;
  provider_reference = address_of fs 3;
  for_provider = parameters_of fs;
}

abbrev spec_fields : SearchAttributeSpecStruct foreign → Fields
spec_fields s =
    let p = s.for_provider in
    record (parameters_fields p) {
      addresses =
          p.temporal_namespace_name ∷ p.temporal_namespace_name_ref
          ∷ p.temporal_namespace_name_selector ∷ s.provider_reference ∷ [];
    }

abbrev status_of : Fields → SearchAttributeStatusStruct foreign
status_of fs = record { resource_status = fs.conditions; at_provider = observation_of fs }

abbrev status_fields : SearchAttributeStatusStruct foreign → Fields
status_fields s = record (observation_fields s.at_provider) { conditions = s.resource_status }

abbrev attribute_of : Fields → SearchAttributeStruct foreign
attribute_of fs = record {
  type_meta = tt;
  object_meta = text_of fs 5;
  spec = spec_of fs;
  status = status_of fs;
}

abbrev attribute_fields : SearchAttributeStruct foreign → Fields
attribute_fields a =
    let p = a.spec.for_provider in
    let o = a.status.at_provider in
    record {
      texts = p.name ∷ p.type ∷ o.name ∷ o.type ∷ o.temporal_namespace_name ∷ a.object_meta ∷ [];
      addresses = (spec_fields a.spec).addresses;
      numbers = [];
      conditions = a.status.resource_status;
    }

abbrev variables : AttributeVariables foreign
variables = record {
  attribute_parameters = structs parameters_fields parameters_of (λ a. refl);
  attribute_observations = structs observation_fields observation_of (λ a. refl);
  attribute_specs = structs spec_fields spec_of (λ a. refl);
  attribute_statuses = structs status_fields status_of (λ a. refl);
  attributes = structs attribute_fields attribute_of (λ a. refl);
  attribute_arrays = arrays attribute_fields attribute_of (λ a. refl);
  attribute_lists =
      structs (λ l. record no_fields { addresses = l.items ∷ [] })
        (λ fs. record { type_meta = tt; list_meta = tt; items = address_of fs 0 }) (λ a. refl);
}

-- An attribute that names its namespace at 0, and has not been observed.
abbrev region_struct : SearchAttributeStruct foreign
region_struct = record {
  type_meta = tt;
  object_meta = "region";
  spec = record {
    resource_spec = tt;
    provider_reference = none;
    for_provider = record {
      name = "region";
      type = "Keyword";
      temporal_namespace_name = some 0;
      temporal_namespace_name_ref = none;
      temporal_namespace_name_selector = none;
    };
  };
  status = record { resource_status = []; at_provider = observation_of no_fields };
}

abbrev region : SearchAttribute kube
region = record {
  type_meta = tt;
  object_meta = "region";
  spec = record {
    resource_spec = tt;
    provider_reference = none;
    for_provider = record {
      name = "region";
      type = "Keyword";
      temporal_namespace_name = some "orders";
      temporal_namespace_name_ref = none;
      temporal_namespace_name_selector = none;
    };
  };
  status = record {
    resource_status = [];
    at_provider = record { name = ""; type = ""; temporal_namespace_name = "" };
  };
}

abbrev one_attribute : SearchAttributeList kube
one_attribute = record { type_meta = tt; list_meta = tt; items = some (region ∷ []) }

abbrev cells : ℕ → Option Cell
cells zero = some (foreign.texts.put "orders")
cells (suc zero) = some (variables.attribute_arrays.put (region_struct ∷ []))
cells (suc (suc n)) =
    some (variables.attribute_lists.put (record { type_meta = tt; list_meta = tt; items = some 1 }))

abbrev memory : Memory Cell
memory = record { next = 3; cell = cells }

reads_region : (attribute foreign).layout.Reads 0 3 memory region_struct region
unfolding deep_copy_into_attribute deep_copy_into_attribute_spec deep_copy_into_attribute_status
    deep_copy_into_attribute_parameters deep_copy_into_attribute_observation
reads_region =
    (refl, (refl, ((refl, (tt, (refl, (refl, (named, (tt, tt)))))), (refl, (refl, (refl, refl))))))
  where
    named : Points foreign.texts plain 0 3 memory 0 "orders"
    named = record {
      value = "orders";
      above = omega arith;
      below = omega arith;
      holds = refl;
      reads = refl;
    }

reads_list :
    (attribute_list_pointer foreign variables).layout.Reads 0 3 memory (some 2) (some one_attribute)
unfolding deep_copy_into_attribute_list deep_copy_into_attribute
reads_list = record {
  value = record { type_meta = tt; list_meta = tt; items = some 1 };
  above = omega arith;
  below = omega arith;
  holds = refl;
  reads = (
    refl,
    (
      refl,
      record {
        value = region_struct ∷ [];
        above = omega arith;
        below = omega arith;
        holds = refl;
        reads = (reads_region, tt);
      },
    ),
  );
}

-- The array of the original is written after the copy was made.
attribute_list_copied :
    Separate
      (attribute_list_pointer foreign variables).layout
      0
      (some 2)
      (some one_attribute)
      memory
      1
      (variables.attribute_arrays.put [])
      (deep_copy_attribute_list foreign variables (some 2) memory)
attribute_list_copied =
    deep_copy_attribute_list-Separate foreign variables 0 memory (some 2) (some one_attribute) 1
      (variables.attribute_arrays.put []) reads_list
