-- ===== src/Provider.antt =====
-- internal/provider: the errors of provider.go, and mackerel.go over the client of
-- mackerel-client-go, which is a parameter.
pub mod Result
pub mod Client
pub mod Convert
pub mod Operations
pub mod New
