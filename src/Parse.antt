-- ===== src/Parse.antt =====
-- proxies/internal/parse/parse.go: share-links, their canonical form and their outbounds.
pub mod Error
pub mod Sort
pub mod Scheme
pub mod Vmess
pub mod Canonical
pub mod Params
pub mod Outbound
pub mod Built
pub mod Build
pub mod Line
pub mod Many
