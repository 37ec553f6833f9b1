-- ===== src/Access.antt =====
-- Who may act: common/policies/tenant-access-policy.helper.ts and
-- payments/policies/finance-access-policy.helper.ts.
use wer_te_backend.Prelude.{
  ℕ, Bool, true, false, ◌&&◌, ◌||◌, Option, none, some, List, [], ◌∷◌, ◌==◌, if◌then◌else◌,
}
use wer_te_backend.Domain.Enums.{UserRole, role_is}
use wer_te_backend.Domain.Entities.{User}
use wer_te_backend.Domain.Store.{Error, Result}

abbrev pub has_role : User → UserRole → Bool
has_role current_user expected_role = role_is current_user.role expected_role

unfoldable pub has_any_role : User → List UserRole → Bool
has_any_role current_user [] = false
has_any_role current_user (r ∷ rs) = role_is r current_user.role || has_any_role current_user rs

-- An actor with no scoped id is let through: the test is then on the owner alone.
unfoldable pub matches_actor_scoped_resource : Option ℕ → ℕ → Bool
matches_actor_scoped_resource none resource_id = true
matches_actor_scoped_resource (some k) resource_id = k == resource_id

unfoldable pub has_owned_resource_access : User → UserRole → ℕ → ℕ → Option ℕ → Bool
unfolding matches_actor_scoped_resource
has_owned_resource_access current_user expected_role owner_user_id resource_id scoped_id =
    has_role current_user expected_role
    && current_user.user_id == owner_user_id
    && matches_actor_scoped_resource scoped_id resource_id

unfoldable pub has_customer_finance_scope : User → Bool
has_customer_finance_scope current_user =
    has_role current_user UserRole.customer
    && not_null current_user.actor_context.customer_profile_id
  where
    not_null : Option ℕ → Bool
    not_null none = false
    not_null (some k) = true

unfoldable pub require_customer_finance_scope : User → Result ℕ
require_customer_finance_scope current_user = elim current_user.actor_context.customer_profile_id [
  | none ↦ Result.err Error.forbidden
  | some k ↦
      if has_role current_user UserRole.customer then Result.ok k else Result.err Error.forbidden
]

unfoldable pub has_admin_finance_access : User → Bool
has_admin_finance_access current_user = has_role current_user UserRole.admin
