-- ===== src/Permissions/Agreement.antt =====
-- What `isUpToDate` of permissions.go decides.
use provider_rabbitmq.Prelude.{◌≡◌, ◌↔◌, ap, true, some, unless_both}
use provider_rabbitmq.Libraries.{Libraries, LibraryLaws}
use provider_rabbitmq.Client.Types.{PermissionInfo}
use provider_rabbitmq.Client.Comparisons.{is_string_ptr_equal_to_string_iff, last_string_iff}
use provider_rabbitmq.Permissions.Types.{PermissionsParameters, PermissionSettings}
use provider_rabbitmq.Permissions.Settings.{is_up_to_date, settings_up_to_date}

-- The three patterns are the server's.
abbrev pub PatternsAgree : PermissionSettings → PermissionInfo → Type 0
PatternsAgree spec api =
    (spec.configure ≡ api.configure) × ((spec.write ≡ api.write) × (spec.read ≡ api.read))

module _ ⦃lib : Libraries⦄ (laws : LibraryLaws lib) where
  pub settings_up_to_date_iff :
      (spec : PermissionSettings) (api : PermissionInfo)
      → (settings_up_to_date spec api ≡ true) ↔ PatternsAgree spec api
  unfolding settings_up_to_date
  settings_up_to_date_iff spec api =
      unless_both _ _ (is_string_ptr_equal_to_string_iff laws (some spec.configure) api.configure) (
        unless_both _ _ (is_string_ptr_equal_to_string_iff laws (some spec.write) api.write)
          (last_string_iff laws (some spec.read) api.read))

  -- Permissions with settings are up to date exactly when the three patterns are the server's.
  pub is_permissions_up_to_date_iff :
      (spec : PermissionsParameters) (api : PermissionInfo) {p : PermissionSettings}
      → spec.permission_settings ≡ some p
      → (is_up_to_date spec api ≡ some true) ↔ PatternsAgree p api
  unfolding is_up_to_date
  is_permissions_up_to_date_iff spec api {p} h =
      let (to, from) = settings_up_to_date_iff p api in
      rw h ((λ e. to (cc)), (λ a. ap some (from a)))
