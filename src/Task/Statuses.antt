-- ===== src/Task/Statuses.antt =====
-- The two statuses of a task under CalDAV and on a device.
use text.Mathlib.Text.{◌==◌}
use boox_bridge.Prelude.{String, ◌≡◌, refl, inl, inr, Bool-cases}
use boox_bridge.Task.{caldav_status, supernote_status}

-- Translating a status of CalDAV to a device's, back and there again is translating it once, and so
-- it is with a status of a device, for every text.
pub status_translations :
    (s : String)
    → (caldav_status (supernote_status (caldav_status s)) ≡ caldav_status s)
      × (supernote_status (caldav_status (supernote_status s)) ≡ supernote_status s)
unfolding caldav_status supernote_status
status_translations s = (
  elim (Bool-cases (s == "completed")) [ inl e ↦ rw e refl | inr e ↦ rw e refl ],
  elim (Bool-cases (s == "COMPLETED")) [ inl e ↦ rw e refl | inr e ↦ rw e refl ],
)
