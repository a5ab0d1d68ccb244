-- ===== src/ControlMap.antt =====
-- Update control maps: `Map` is app/updatecontrolmap/updatecontrolmap.go, `Pool` the pool of maps of
-- app/updatemanager.go, `Query` its decision on what an update does next.
pub mod Map
pub mod Pool
pub mod Query
