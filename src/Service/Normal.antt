-- ===== src/Service/Normal.antt =====
-- What is shown of a service that was built from an input.
use kudeploy.Prelude.{
  ◌≡◌, refl, ap, Bool, true, false, ◌||◌, Option, none, some, List, [], ◌∷◌, map, Text, units,
  is_some, or_else, non_empty, trim, drop_spaces, is_space, Option-cases, if◌then◌else◌, nat_eq,
  list_eq, arith, Bool-cases, inl, inr,
}
use kudeploy.Prelude.Exec.{ok, map_results}
use kudeploy.Prelude.Int.{ℤ}
use kudeploy.Prelude.Trimming.{optional, optional-optional}
use kudeploy.Kubernetes.Names.{registry_credential, volume}
use kudeploy.Kubernetes.Names.Laws.{to_graphql_id-name, has_name_prefix-name, non_empty-name}
use kudeploy.Service.Entity.{
  ServiceHealthCheckType, http, tcp, ServiceResources, ServiceHealthCheck, ServiceVolume,
  ServiceVolumeInput, ServicePortInput,
}
use kudeploy.Service.Building.{
  build_resource_requirements, quantities_of, requirements_of, build_probe, action_of,
  image_secret_ref_of, if_any, build_volume, only_true,
}
use kudeploy.Service.Reading.{
  to_service_resources, if_some, to_service_health_check, to_registry_credential_id,
  to_service_volume, to_service_port, or_null,
}
use kudeploy.Service.{if_present, as_input_volume, to_service_input_port}

-- `value || null`
abbrev pub normal_credential : Option Text → Option Text
normal_credential none = none
normal_credential (some id) = if non_empty id then some id else none

-- Trimmed quantities, if one is left.
unfoldable pub normal_resources : Option ServiceResources → Option ServiceResources
unfolding optional
normal_resources none = none
normal_resources (some r) = if_some (record {
  cpu_request = optional r.cpu_request;
  cpu_limit = optional r.cpu_limit;
  memory_request = optional r.memory_request;
  memory_limit = optional r.memory_limit;
})

abbrev pub normal_path : ServiceHealthCheckType → Option Text → Option Text
normal_path http path = some (or_else (optional path) (units "/"))
normal_path tcp path = none

unfoldable pub normal_check : Option ServiceHealthCheck → Option ServiceHealthCheck
unfolding optional units
normal_check none = none
normal_check (some h) =
    some (record { type = h.type; port = h.port; path = normal_path h.type h.path })

unfoldable pub normal_volume : ServiceVolumeInput → ServiceVolume
unfolding optional
normal_volume v = record {
  volume_id = v.volume_id;
  mount_path = v.mount_path;
  sub_path = optional v.sub_path;
  read_only = or_else v.read_only false;
}

pub to_registry_credential_id-image_secret_ref_of :
    (id : Option Text)
    → to_registry_credential_id (image_secret_ref_of id) ≡ ok (normal_credential id)
unfolding to_registry_credential_id image_secret_ref_of
to_registry_credential_id-image_secret_ref_of none = refl
to_registry_credential_id-image_secret_ref_of (some id) = elim (Bool-cases (non_empty id)) [
  | inl e ↦
      rw
        (
          e,
          non_empty-name registry_credential id,
          has_name_prefix-name registry_credential id,
          to_graphql_id-name registry_credential id,
        )
        refl
  | inr e ↦ rw e refl
]

shown_quantities :
    (a b c d : Option Text)
    → to_service_resources (requirements_of (quantities_of a b) (quantities_of c d))
      ≡ if_some (record { cpu_request = a; cpu_limit = c; memory_request = b; memory_limit = d })
unfolding to_service_resources
shown_quantities none none none none = refl
shown_quantities a b c d = ground arith

pub to_service_resources-build_resource_requirements :
    (r : Option ServiceResources)
    → to_service_resources (build_resource_requirements r) ≡ normal_resources r
unfolding build_resource_requirements normal_resources
to_service_resources-build_resource_requirements none = unfold to_service_resources in refl
to_service_resources-build_resource_requirements (some r) = shown_quantities _ _ _ _

pub to_service_health_check-build_probe :
    (number_of : Text → Option ℤ) (h : Option ServiceHealthCheck) (period failures : ℤ)
    → to_service_health_check number_of (build_probe h period failures) ≡ normal_check h
unfolding to_service_health_check build_probe action_of normal_check
to_service_health_check-build_probe number_of none period failures = refl
to_service_health_check-build_probe number_of (some h) period failures = ground arith

pub or_else-if_any : (l : Option (List Text)) → or_else (if_any l) [] ≡ or_else l []
unfolding if_any
or_else-if_any none = refl
or_else-if_any (some []) = refl
or_else-if_any (some (x ∷ xs)) = refl

or_else-only_true : (b : Option Bool) → or_else (only_true b) false ≡ or_else b false
or_else-only_true none = refl
or_else-only_true (some true) = refl
or_else-only_true (some false) = refl

to_service_volume-build_volume :
    (v : ServiceVolumeInput) → to_service_volume (build_volume v) ≡ ok (normal_volume v)
unfolding to_service_volume build_volume normal_volume
to_service_volume-build_volume v =
    rw (has_name_prefix-name volume v.volume_id, to_graphql_id-name volume v.volume_id)
      (ap
        (λ (b : Bool). ok (record {
          volume_id = v.volume_id;
          mount_path = v.mount_path;
          sub_path = optional v.sub_path;
          read_only = b;
        }))
        (or_else-only_true v.read_only))

pub map_results-build_volume :
    (vs : List ServiceVolumeInput)
    → map_results to_service_volume (map build_volume vs) ≡ ok (map normal_volume vs)
unfolding map_results
map_results-build_volume [] = refl
map_results-build_volume (v ∷ vs) =
    rw (to_service_volume-build_volume v, map_results-build_volume vs) refl

-- What is normal stays as it is.
pub normal_credential_idem :
    (id : Option Text) → normal_credential (normal_credential id) ≡ normal_credential id
normal_credential_idem none = refl
normal_credential_idem (some id) = elim (Bool-cases (non_empty id)) [
  | inl e ↦ rw (e, e) refl
  | inr e ↦ rw e refl
]

normal_resources-if_some :
    (a b c d : Option Text)
    → normal_resources (
        if_some (record {
          cpu_request = optional a;
          cpu_limit = optional b;
          memory_request = optional c;
          memory_limit = optional d;
        }))
      ≡ if_some (record {
        cpu_request = optional a;
        cpu_limit = optional b;
        memory_request = optional c;
        memory_limit = optional d;
      })
unfolding normal_resources
normal_resources-if_some a b c d =
    elim (Bool-cases (
      is_some (optional a)
      || (is_some (optional b) || (is_some (optional c) || is_some (optional d))))) [
        | inl e ↦
            rw
              (
                e,
                optional-optional a,
                optional-optional b,
                optional-optional c,
                optional-optional d,
                e,
              )
              refl
        | inr e ↦ rw e refl
      ]

pub normal_resources_idem :
    (r : Option ServiceResources) → normal_resources (normal_resources r) ≡ normal_resources r
unfolding normal_resources
normal_resources_idem none = refl
normal_resources_idem (some r) =
    normal_resources-if_some r.cpu_request r.cpu_limit r.memory_request r.memory_limit

slash_path : optional (some (units "/")) ≡ some (units "/")
unfolding optional units trim drop_spaces is_space non_empty
slash_path = refl

normal_path_idem :
    (t : ServiceHealthCheckType) (path : Option Text)
    → normal_path t (normal_path t path) ≡ normal_path t path
normal_path_idem tcp path = refl
normal_path_idem http path = elim (Option-cases (optional path)) [
  | inl e ↦ rw (e, slash_path) refl
  | inr (s, e) ↦
      let again : optional (some s) ≡ some s = rw e at (optional-optional path) in
      rw (e, again) refl
]

pub normal_check_idem :
    (h : Option ServiceHealthCheck) → normal_check (normal_check h) ≡ normal_check h
unfolding normal_check
normal_check_idem none = refl
normal_check_idem (some h) =
    ap (λ (p : Option Text). some (record { type = h.type; port = h.port; path = p }))
      (normal_path_idem h.type h.path)

pub normal_volume_idem :
    (v : ServiceVolumeInput) → normal_volume (as_input_volume (normal_volume v)) ≡ normal_volume v
unfolding normal_volume as_input_volume
normal_volume_idem v = rw (optional-optional v.sub_path) refl

pub map-normal_volume :
    (vs : List ServiceVolumeInput)
    → map normal_volume (map as_input_volume (map normal_volume vs)) ≡ map normal_volume vs
map-normal_volume [] = refl
map-normal_volume (v ∷ vs) = rw (normal_volume_idem v, map-normal_volume vs) refl

or_null-if_present : (value : Option ℤ) → or_null (if_present value) ≡ value
or_null-if_present none = refl
or_null-if_present (some n) = refl

port_idem :
    (p : ServicePortInput)
    → to_service_port (to_service_input_port (to_service_port p)) ≡ to_service_port p
unfolding to_service_port to_service_input_port
port_idem p =
    ap (λ (t : Option ℤ). record { port = p.port; target_port = t }) (or_null-if_present _)

pub map-to_service_port :
    (ps : List ServicePortInput)
    → map to_service_port (map to_service_input_port (map to_service_port ps))
      ≡ map to_service_port ps
map-to_service_port [] = refl
map-to_service_port (p ∷ ps) = rw (port_idem p, map-to_service_port ps) refl
