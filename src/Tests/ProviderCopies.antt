-- ===== src/Tests/ProviderCopies.antt =====
-- The theorem on deep copies of provider configurations, for a list of one.
use provider_temporal.Base.{ℕ, zero, suc, refl, Option, some, [], ◌∷◌, arith}
use provider_temporal.Api.ProviderConfig.{ProviderConfig, ProviderConfigList}
use provider_temporal.Go.Memory.{Memory}
use provider_temporal.Go.Memory.Regions.{Separate}
use provider_temporal.Api.Copies.Provider.{
  ProviderConfigStruct, ProviderVariables, deep_copy_into_config, deep_copy_into_config_spec,
  deep_copy_into_config_status, deep_copy_into_credentials, deep_copy_into_config_list,
  deep_copy_config_list,
}
use provider_temporal.Api.Copies.Provider.Laws.{
  config, config_list_pointer, deep_copy_config_list-Separate,
}
use provider_temporal.Tests.Connections.{kube}
use provider_temporal.Tests.Memory.{
  Fields, Cell, text_of, address_of, no_fields, structs, arrays, foreign,
}

abbrev config_of : Fields → ProviderConfigStruct foreign
config_of fs = record {
  type_meta = tt;
  object_meta = text_of fs 0;
  spec = record { credentials = record { source = tt; common_credential_selectors = tt } };
  status = record { provider_config_status = tt };
}

abbrev config_fields : ProviderConfigStruct foreign → Fields
config_fields c = record no_fields { texts = c.object_meta ∷ [] }

abbrev variables : ProviderVariables foreign
variables = record {
  credentials =
      structs (λ a. no_fields) (λ fs. record { source = tt; common_credential_selectors = tt })
        (λ a. refl);
  config_specs = structs (λ a. no_fields) (λ fs. (config_of fs).spec) (λ a. refl);
  config_statuses = structs (λ a. no_fields) (λ fs. (config_of fs).status) (λ a. refl);
  configs = structs config_fields config_of (λ a. refl);
  usages =
      structs (λ u. record no_fields { texts = u.object_meta ∷ [] })
        (λ fs. record { type_meta = tt; object_meta = text_of fs 0; provider_config_usage = tt })
        (λ a. refl);
  config_arrays = arrays config_fields config_of (λ a. refl);
  config_lists =
      structs (λ l. record no_fields { addresses = l.items ∷ [] })
        (λ fs. record { type_meta = tt; list_meta = tt; items = address_of fs 0 }) (λ a. refl);
  usage_arrays =
      arrays (λ u. record no_fields { texts = u.object_meta ∷ [] })
        (λ fs. record { type_meta = tt; object_meta = text_of fs 0; provider_config_usage = tt })
        (λ a. refl);
  usage_lists =
      structs (λ l. record no_fields { addresses = l.items ∷ [] })
        (λ fs. record { type_meta = tt; list_meta = tt; items = address_of fs 0 }) (λ a. refl);
}

abbrev default_struct : ProviderConfigStruct foreign
default_struct = config_of (record no_fields { texts = "default" ∷ [] })

abbrev default : ProviderConfig kube
default = record {
  type_meta = tt;
  object_meta = "default";
  spec = record { credentials = record { source = tt; common_credential_selectors = tt } };
  status = record { provider_config_status = tt };
}

abbrev one_config : ProviderConfigList kube
one_config = record { type_meta = tt; list_meta = tt; items = some (default ∷ []) }

abbrev cells : ℕ → Option Cell
cells zero = some (variables.config_arrays.put (default_struct ∷ []))
cells (suc n) =
    some (variables.config_lists.put (record { type_meta = tt; list_meta = tt; items = some 0 }))

abbrev memory : Memory Cell
memory = record { next = 2; cell = cells }

reads_default : (config foreign).layout.Reads 0 2 memory default_struct default
unfolding deep_copy_into_config deep_copy_into_config_spec deep_copy_into_config_status
    deep_copy_into_credentials
reads_default = (refl, (refl, ((refl, refl), refl)))

reads_list :
    (config_list_pointer foreign variables).layout.Reads 0 2 memory (some 1) (some one_config)
unfolding deep_copy_into_config_list deep_copy_into_config
reads_list = record {
  value = record { type_meta = tt; list_meta = tt; items = some 0 };
  above = omega arith;
  below = omega arith;
  holds = refl;
  reads = (
    refl,
    (
      refl,
      record {
        value = default_struct ∷ [];
        above = omega arith;
        below = omega arith;
        holds = refl;
        reads = (reads_default, tt);
      },
    ),
  );
}

-- The array of the copy is written.
config_list_copied :
    Separate
      (config_list_pointer foreign variables).layout
      0
      (some 1)
      (some one_config)
      memory
      3
      (variables.config_arrays.put [])
      (deep_copy_config_list foreign variables (some 1) memory)
config_list_copied =
    deep_copy_config_list-Separate foreign variables 0 memory (some 1) (some one_config) 3
      (variables.config_arrays.put []) reads_list
