-- ===== src/Serial/Tests.antt =====
-- A chip that is always ready to send.
use magnos.Base.{◌+◌, ◌==◌, if◌then◌else◌}
use magnos.Ports.{Device}
use magnos.Serial.{com1}

abbrev ready_chip : Device
ready_chip h port = if port == com1 + 5 then 0x60 else 0
