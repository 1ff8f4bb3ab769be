-- ===== src/Tests/NamespaceCopies.antt =====
-- The theorems on deep copies of namespaces, for a list of one that shares a text and a map.
use provider_temporal.Base.{ℕ, zero, suc, refl, Option, none, some, [], ◌∷◌, arith}
use provider_temporal.Base.Int.{pos}
use provider_temporal.Api.Namespace.{TemporalNamespace, TemporalNamespaceList}
use provider_temporal.Go.Memory.{Memory}
use provider_temporal.Go.Memory.Regions.{Separate, plain}
use provider_temporal.Go.Memory.Pointers.{Points, pointer}
use provider_temporal.Go.Memory.Maps.{entry_list}
use provider_temporal.Api.Copies.Namespace.{
  TemporalNamespaceStruct, deep_copy_into_parameters, deep_copy_into_observation,
  deep_copy_into_spec, deep_copy_into_status, deep_copy_into_namespace, deep_copy_into_list,
  deep_copy_namespace, deep_copy_list,
}
use provider_temporal.Api.Copies.Namespace.Laws.{
  namespace, namespace_pointer, list_pointer, deep_copy_namespace-Separate, deep_copy_list-Separate,
}
use provider_temporal.Tests.Connections.{kube}
use provider_temporal.Tests.Memory.{Cell, no_fields, foreign}
use provider_temporal.Tests.NamespaceStructs.{observation_of, variables}

-- A namespace that has a description at 0 and a map at 1, and has not been observed.
abbrev orders_struct : TemporalNamespaceStruct foreign
orders_struct = record {
  type_meta = tt;
  object_meta = "orders";
  spec = record {
    resource_spec = tt;
    provider_reference = none;
    for_provider = record {
      name = "orders";
      description = some 0;
      owner_email = none;
      workflow_execution_retention_days = pos 30;
      data_map = some 1;
      history_archival_state = "Disabled";
      history_archival_uri = none;
      visibility_archival_state = "Disabled";
      visibility_archival_uri = none;
    };
  };
  status = record { resource_status = []; at_provider = observation_of no_fields 0 0 0 };
}

abbrev orders : TemporalNamespace kube
orders = record {
  type_meta = tt;
  object_meta = "orders";
  spec = record {
    resource_spec = tt;
    provider_reference = none;
    for_provider = record {
      name = "orders";
      description = some "Orders";
      owner_email = none;
      workflow_execution_retention_days = pos 30;
      data_map = some (some (("team", "shop") ∷ []));
      history_archival_state = "Disabled";
      history_archival_uri = none;
      visibility_archival_state = "Disabled";
      visibility_archival_uri = none;
    };
  };
  status = record {
    resource_status = [];
    at_provider = record {
      id = "";
      name = "";
      description = none;
      owner_email = none;
      workflow_execution_retention_days = pos 0;
      data_map = none;
      history_archival_state = "";
      history_archival_uri = none;
      visibility_archival_state = "";
      visibility_archival_uri = none;
      state = "";
    };
  };
}

abbrev one_namespace : TemporalNamespaceList kube
one_namespace = record { type_meta = tt; list_meta = tt; items = some (orders ∷ []) }

abbrev cells : ℕ → Option Cell
cells zero = some (foreign.texts.put "Orders")
cells (suc zero) = some (foreign.maps.put (some 2))
cells (suc (suc zero)) = some (foreign.entries.put (("team", "shop") ∷ []))
cells (suc (suc (suc zero))) = some (variables.namespaces.put orders_struct)
cells (suc (suc (suc (suc zero)))) = some (variables.arrays.put (orders_struct ∷ []))
cells (suc (suc (suc (suc (suc n))))) =
    some (variables.lists.put (record { type_meta = tt; list_meta = tt; items = some 4 }))

abbrev memory : Memory Cell
memory = record { next = 6; cell = cells }

reads_orders : (namespace foreign).layout.Reads 0 6 memory orders_struct orders
unfolding deep_copy_into_namespace deep_copy_into_spec deep_copy_into_status
    deep_copy_into_parameters deep_copy_into_observation
reads_orders = (
  refl,
  (
    refl,
    (
      (refl, (tt, (refl, (description, (tt, (refl, (data_map, (refl, (tt, (refl, tt)))))))))),
      (refl, (refl, (refl, (tt, (tt, (refl, (tt, (refl, (tt, (refl, (tt, refl))))))))))),
    ),
  ),
)
  where
    description : Points foreign.texts plain 0 6 memory 0 "Orders"
    description = record {
      value = "Orders";
      above = omega arith;
      below = omega arith;
      holds = refl;
      reads = refl;
    }

    data_map :
        Points foreign.maps
          (pointer foreign.entries entry_list)
          0
          6
          memory
          1
          (some (("team", "shop") ∷ []))
    data_map = record {
      value = some 2;
      above = omega arith;
      below = omega arith;
      holds = refl;
      reads = record {
        value = ("team", "shop") ∷ [];
        above = omega arith;
        below = omega arith;
        holds = refl;
        reads = (refl, (refl, tt));
      };
    }

reads_pointer : (namespace_pointer foreign variables).layout.Reads 0 6 memory (some 3) (some orders)
unfolding deep_copy_into_namespace
reads_pointer = record {
  value = orders_struct;
  above = omega arith;
  below = omega arith;
  holds = refl;
  reads = reads_orders;
}

reads_list : (list_pointer foreign variables).layout.Reads 0 6 memory (some 5) (some one_namespace)
unfolding deep_copy_into_list deep_copy_into_namespace
reads_list = record {
  value = record { type_meta = tt; list_meta = tt; items = some 4 };
  above = omega arith;
  below = omega arith;
  holds = refl;
  reads = (
    refl,
    (
      refl,
      record {
        value = orders_struct ∷ [];
        above = omega arith;
        below = omega arith;
        holds = refl;
        reads = (reads_orders, tt);
      },
    ),
  );
}

-- The description of the original is written after the copy was made.
deep_copy_namespace-Separate_example :
    Separate
      (namespace_pointer foreign variables).layout
      0
      (some 3)
      (some orders)
      memory
      0
      (foreign.texts.put "Sales")
      (deep_copy_namespace foreign variables (some 3) memory)
deep_copy_namespace-Separate_example =
    deep_copy_namespace-Separate foreign variables 0 memory (some 3) (some orders) 0
      (foreign.texts.put "Sales") reads_pointer

-- The array of the copy is written.
list_copied :
    Separate
      (list_pointer foreign variables).layout
      0
      (some 5)
      (some one_namespace)
      memory
      7
      (variables.arrays.put [])
      (deep_copy_list foreign variables (some 5) memory)
list_copied =
    deep_copy_list-Separate foreign variables 0 memory (some 5) (some one_namespace) 7
      (variables.arrays.put []) reads_list
