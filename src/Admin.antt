-- ===== src/Admin.antt =====
-- internal/admin: the HTTP interface. A request is its route with the decoded body, a response its
-- status code and what it carries, before formatting.
pub mod Types
pub mod Views
pub mod Changes
pub mod Routes
pub mod Gauges
mod Examples
