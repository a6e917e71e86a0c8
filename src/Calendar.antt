-- ===== src/Calendar.antt =====
-- agriculture_calendar.py: campaign dates of the Calendar of Harptos, and the gate that sorts
-- source references into temporal layers against the one current day.
pub mod Date
pub mod Order
pub mod Gate
pub mod Layers
pub mod Previews
mod Examples
