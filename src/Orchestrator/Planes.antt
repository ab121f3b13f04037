-- ===== src/Orchestrator/Planes.antt =====
-- `Plane` and `ProbeKind` of api/orchestrator/planes.py.
use cosmos3_nano_web_ui.Common.{String}

pub data Plane : Type 0 where
  generation reasoning : Plane

pub data ProbeKind : Type 0 where
  http ready_file : ProbeKind

-- `Plane.value`.
unfoldable pub plane_value : Plane → String
plane_value generation = "generation"
plane_value reasoning = "reasoning"

pub Plane-discrete : Discrete Plane
Plane-discrete = hlevel
