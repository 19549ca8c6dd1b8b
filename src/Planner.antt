-- ===== src/Planner.antt =====
-- internal/planner: what the samba servers of a share are to be, from the custom resources.
-- The shared container configuration, which the planner may write, is a separate argument of the
-- two methods that use it (`Configuration`). A planner always has a share: each caller of `New`
-- passes one.
pub mod Instance
pub mod Properties
pub mod Misc
pub mod Paths
pub mod Args
pub mod Selector
pub mod Compatible
pub mod Configuration
