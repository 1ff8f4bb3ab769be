-- ===== src/Clients/Namespace/Fields.antt =====
-- internal/clients/namespace.go: how single fields are carried to the server and back.
pub mod Laws
use provider_temporal.Base.{
  ℕ, ◌*◌, String, Bool, true, false, Option, none, some, [], ◌∷◌, if◌then◌else◌, ◌==◌,
}
use provider_temporal.Base.Int.{ℤ, ◌*ℤ◌, ◌/ℤ◌}
use provider_temporal.Go.Word.{wrap64}
use provider_temporal.Go.Json.{StringMap}

-- `time.Hour * 24`, in nanoseconds.
abbrev pub day : ℕ
day = 3600000000000 * 24

-- `time.Duration(days) * day`
unfoldable pub create_retention : ℤ → ℤ
create_retention days = wrap64 (days *ℤ day)

-- `time.Duration(days * int(day))`
unfoldable pub update_retention : ℤ → ℤ
update_retention days = wrap64 (days *ℤ day)

-- `int(ttl / day)`
unfoldable pub retention_days : ℤ → ℤ
retention_days ttl = ttl /ℤ day

unfoldable pub resolve_ptr_or_default : Option String → String
resolve_ptr_or_default none = ""
resolve_ptr_or_default (some s) = s

unfoldable pub create_ptr_or_nil_if_default : String → Option String
create_ptr_or_nil_if_default value = if value == "" then none else some value

-- `if namespace.Data != nil { data = *namespace.Data }`
abbrev pub data_or_nil : Option StringMap → StringMap
data_or_nil none = none
data_or_nil (some m) = m

-- `len(m) > 0`
abbrev pub is_non_empty : StringMap → Bool
is_non_empty none = false
is_non_empty (some []) = false
is_non_empty (some (e ∷ m)) = true
