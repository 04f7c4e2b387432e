-- ===== src/Failover/Maintenance/Order.antt =====
-- A node that enters maintenance is stopped before another is started.
use netbox_conductor.Base.{Bool, false, ◌&&◌, Option, none, some, str_eq}
use netbox_conductor.Failover.State.{Cluster}
use netbox_conductor.Failover.Log.{Adds}

-- The cluster moves NetBox off a node that enters maintenance.
abbrev pub asks_for : Option Cluster → Bool
asks_for none = false
asks_for (some c) = c.failover_on_maintenance && str_eq c.mode "active_standby"
