-- ===== src/Api.antt =====
-- The API types (pkg/apis/search/v1alpha1/policy_types.go) and the JSON values that the program moves
-- about as `map[string]any`. A number is kept as its literal text.
mod Values
mod Policies
unfoldable pub use Values.*
unfoldable pub use Policies.*
