-- ===== src/Api/Copies/Store.antt =====
-- apis/v1alpha1/zz_generated.deepcopy.go: the functions of StoreConfig and of its parts.
pub mod Laws
use provider_temporal.Base.{ℕ, String, Option, List}
use provider_temporal.Api.Kube.{Kube}
use provider_temporal.Go.Memory.{Storable, Command, ◌>>=◌, pure, copy_pointer, copy_slice}
use provider_temporal.Api.Copies.Foreign.{
  Foreign, Object, as_object, store_object, store_list_object,
}

module _ {k : Kube} {C : Type 0} (f : Foreign k C) where
  pub record StoreConfigSpecStruct : Type 0 where
    pub secret_store_config : f.SecretStoreConfig

  pub record StoreConfigStatusStruct : Type 0 where
    pub conditioned_status : f.ConditionedStatus

  pub record StoreConfigStruct : Type 0 where
    pub type_meta : k.TypeMeta
    pub object_meta : f.ObjectMeta
    pub spec : StoreConfigSpecStruct
    pub status : StoreConfigStatusStruct

  unfoldable pub deep_copy_into_store_spec : StoreConfigSpecStruct → Command C StoreConfigSpecStruct
  deep_copy_into_store_spec s = do
    secret_store_config ← f.secret_store_config.deep_copy_into s.secret_store_config
    pure (record { secret_store_config = secret_store_config })

  unfoldable pub deep_copy_into_store_status :
      StoreConfigStatusStruct → Command C StoreConfigStatusStruct
  deep_copy_into_store_status s = do
    conditioned_status ← f.conditioned_status.deep_copy_into s.conditioned_status
    pure (record { conditioned_status = conditioned_status })

  unfoldable pub deep_copy_into_store : StoreConfigStruct → Command C StoreConfigStruct
  unfolding deep_copy_into_store_spec deep_copy_into_store_status
  deep_copy_into_store s = do
    object_meta ← f.object_meta.deep_copy_into s.object_meta
    spec ← deep_copy_into_store_spec s.spec
    status ← deep_copy_into_store_status s.status
    pure (record s { object_meta = object_meta; spec = spec; status = status })

  pub record StoreConfigListStruct : Type 0 where
    pub type_meta : k.TypeMeta
    pub list_meta : f.ListMeta
    pub items : Option ℕ

  -- The variables of these types.
  pub record StoreVariables : Type 0 where
    pub store_specs : Storable C StoreConfigSpecStruct
    pub store_statuses : Storable C StoreConfigStatusStruct
    pub stores : Storable C StoreConfigStruct
    pub store_arrays : Storable C (List StoreConfigStruct)
    pub store_lists : Storable C StoreConfigListStruct

module _ {k : Kube} {C : Type 0} (f : Foreign k C) (s : StoreVariables f) where
  unfoldable pub deep_copy_into_store_list :
      StoreConfigListStruct f → Command C (StoreConfigListStruct f)
  unfolding deep_copy_into_store copy_slice
  deep_copy_into_store_list l = do
    list_meta ← f.list_meta.deep_copy_into l.list_meta
    items ← copy_slice s.stores s.store_arrays (deep_copy_into_store f) l.items
    pure (record l { list_meta = list_meta; items = items })

  -- DeepCopy of each type: nil for nil, or a new variable.
  unfoldable pub deep_copy_store_spec : Option ℕ → Command C (Option ℕ)
  deep_copy_store_spec = copy_pointer s.store_specs (deep_copy_into_store_spec f)

  unfoldable pub deep_copy_store_status : Option ℕ → Command C (Option ℕ)
  deep_copy_store_status = copy_pointer s.store_statuses (deep_copy_into_store_status f)

  unfoldable pub deep_copy_store : Option ℕ → Command C (Option ℕ)
  deep_copy_store = copy_pointer s.stores (deep_copy_into_store f)

  unfoldable pub deep_copy_store_list : Option ℕ → Command C (Option ℕ)
  unfolding deep_copy_into_store_list
  deep_copy_store_list = copy_pointer s.store_lists deep_copy_into_store_list

  -- DeepCopyObject of those that are a runtime.Object.
  unfoldable pub deep_copy_store_object : Option ℕ → Command C (Option Object)
  deep_copy_store_object p = do q ← deep_copy_store p; pure (as_object store_object q)

  unfoldable pub deep_copy_store_list_object : Option ℕ → Command C (Option Object)
  deep_copy_store_list_object p = do
    q ← deep_copy_store_list p
    pure (as_object store_list_object q)
